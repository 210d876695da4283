-- ===== src/IrqMux/Request.antt =====
-- What a request for the interrupts holds, and what its end does
-- (kernel_driver/la9310shiva/la9310_irq_mux.c).
use la9310_driver.Base.{◌≡◌, Bool, not, ◌&&◌, ◌||◌, ◌==◌, is_neg, arith}
use la9310_driver.IrqMux.{Calls, none_held, request_irq, probe_irq_mux, clean_request_irq}

-- A request that fails after the block was published.
abbrev pub fails_late : Calls → Bool
fails_late c =
    not (c.num_irq == 0)
    && c.alloc_priv
    && c.alloc_map
    && (is_neg c.alloc_descs || is_neg c.add_stats)

-- The end of the interrupts after a request for them, from a state where nothing is held, frees the
-- block a second time exactly if the request failed at the descriptors or at the statistics: there
-- the block is freed and stays published.
pub request_clean_lem :
    (c : Calls) → (clean_request_irq c (request_irq c none_held).1).double_free ≡ fails_late c
unfolding clean_request_irq request_irq probe_irq_mux
request_clean_lem c = ground arith
