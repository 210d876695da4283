-- ===== src/IrqMux/Tests.antt =====
-- Runs of the interrupt multiplexer.
use la9310_driver.Base.{ℕ, ◌+◌, ◌≡◌, refl, true, false, [], ◌∷◌, pos, neg, if◌then◌else◌, ◌==◌}
use la9310_driver.IrqMux.{
  Calls, irq_handler, irqs_from, word_irqs, request_irq, none_held, clean_request_irq,
}
use la9310_driver.IrqMux.Request.{fails_late, request_clean_lem}

abbrev status : ℕ → ℕ
status j = if j == 0 then 5 else 1

abbrev enabled : ℕ → ℕ
enabled j = 4 + 1

raised : irq_handler 32 false 2 40 100 status enabled ≡ 100 ∷ 102 ∷ 132 ∷ []
unfolding irq_handler irqs_from word_irqs
raised = refl

-- No descriptors are to be had.
abbrev no_descs : Calls
no_descs = record {
  num_irq = 8;
  alloc_priv = true;
  alloc_map = true;
  alloc_descs = neg 12;
  add_stats = pos 0;
  request = pos 0;
}

request_clean_lem_example :
    (clean_request_irq no_descs (request_irq no_descs none_held).1).double_free
    ≡ fails_late no_descs
request_clean_lem_example = request_clean_lem no_descs
