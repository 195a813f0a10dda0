-- ===== src/Future/Spin.antt =====
-- The bound of the spin loops.
use fast_queue.Prelude.{ℕ}

-- FQ_FUTURE_SPIN_COUNT of config.h
abbrev pub future_spin_count : ℕ
future_spin_count = 128
