-- ===== src/Platform/Features.antt =====
-- Which of C's features include/fastqueue/platform.h takes a compiler to have.
use fast_queue.Prelude.{
  ℕ, ◌≡◌, refl, true, false, Option, none, some, Bool-cases, inl, inr, if◌then◌else◌, not, ◌||◌,
  arith,
}
use fast_queue.Platform.Macros.{
  Predefined, stdc_at_least, c_version, c11_features, c23_features, alignas_text,
  static_assert_text,
}

at_least_weaken :
    (v : Option ℕ)
    → stdc_at_least v 201112 ≡ false
    → (stdc_at_least v 201710 ≡ false) × (stdc_at_least v 202311 ≡ false)
unfolding stdc_at_least
at_least_weaken none e = (refl, refl)
at_least_weaken (some stdc) e = (ground arith, ground arith)

-- The features of the 2011 standard of C are always taken to be there. Those of the 2023 standard are
-- from that standard on, and also for a compiler of the 1999 standard or an older one, since 9900, the
-- version for 1999, is above 2300, that for 2023; so `FQ_ALIGNAS` and `FQ_STATIC_ASSERT` are then the
-- newest standard's keywords, and no compiler gets its own extensions.
pub features_lem :
    (m : Predefined)
    → let newest =
        stdc_at_least m.stdc_version 202311 || not (stdc_at_least m.stdc_version 201112) in
      (c11_features m ≡ true)
      × (c23_features m ≡ newest)
      × (alignas_text m ≡ (if newest then "alignas(n)" else "_Alignas(n)"))
      × (static_assert_text m
          ≡ (if newest then "static_assert(cond, msg)" else "_Static_assert(cond, msg)"))
unfolding c11_features c23_features c_version alignas_text static_assert_text
features_lem m = elim (Bool-cases (stdc_at_least m.stdc_version 201112)) [
  | inl c11 ↦ (ground arith, ground arith, ground arith, ground arith)
  | inr older ↦
      let (no_c17, no_c23) = at_least_weaken m.stdc_version older in
      (ground arith, ground arith, ground arith, ground arith)
]
