-- ===== src/Errors.antt =====
-- The message buffer of src/utils/errors.c. The text that `vsnprintf` formats is an argument, a list of
-- bytes; `vsnprintf` writes at most the size of the buffer, with a 0 at its end.
use fast_queue.Prelude.{
  ℕ, zero, suc, ◌-◌, ◌<◌, ◌≡◌, refl, ap, ◌∙◌, List, [], ◌∷◌, ◌++◌, ◌==◌, if◌then◌else◌, take, drop,
  length, arith, replicate, false,
}

-- `sizeof(tls_error)`
abbrev pub error_size : ℕ
error_size = 512

-- `tls_error` of a thread that has set no error
abbrev pub no_error : List ℕ
no_error = replicate error_size 0

-- `fq_set_error`, on the buffer of its thread
unfoldable pub set_error : List ℕ → List ℕ → List ℕ
set_error text buffer =
    let written = take (error_size - 1) text ++ 0 ∷ [] in written ++ drop (length written) buffer

-- The C string at the start of a buffer
unfoldable pub string_at : List ℕ → List ℕ
string_at [] = []
string_at (c ∷ cs) = if c == 0 then [] else c ∷ string_at cs

-- `fq_last_error`: the string that its pointer leads to
unfoldable pub last_error : List ℕ → List ℕ
unfolding string_at
last_error buffer = string_at buffer

-- No byte of a text is 0.
abbrev pub NoZero : List ℕ → Type 0
NoZero [] = Unit
NoZero (c ∷ cs) = (0 < c) × NoZero cs

string_at-append :
    (n : ℕ) (text rest : List ℕ)
    → NoZero text
    → string_at ((take n text ++ 0 ∷ []) ++ rest) ≡ take n text
unfolding string_at
string_at-append zero text rest h = refl
string_at-append (suc n) [] rest h = refl
string_at-append (suc n) (c ∷ cs) rest h =
    rw (nonzero c h.0) (ap (λ l. c ∷ l) (string_at-append n cs rest h.1))
  where
    nonzero : (b : ℕ) → 0 < b → (b == 0) ≡ false
    nonzero b p = ground arith

length-written :
    (n : ℕ) (text buffer : List ℕ)
    → n < length buffer
    → length ((take n text ++ 0 ∷ []) ++ drop (length (take n text ++ 0 ∷ [])) buffer)
      ≡ length buffer
length-written zero text [] h = absurd (omega arith)
length-written zero text (b ∷ bs) h = refl
length-written (suc n) text [] h = absurd (omega arith)
length-written (suc n) [] (b ∷ bs) h = refl
length-written (suc n) (c ∷ cs) (b ∷ bs) h = ap suc (length-written n cs bs (omega arith))

-- After an error is set, `fq_last_error` gives its text, cut to 511 bytes, whatever the buffer held; the
-- write stays within the buffer's 512 bytes.
pub last_error-set_error :
    (text buffer : List ℕ)
    → NoZero text
    → length buffer ≡ 512
    → (last_error (set_error text buffer) ≡ take 511 text) × (length (set_error text buffer) ≡ 512)
unfolding last_error set_error
last_error-set_error text buffer h e =
    (string_at-append 511 text _ h, length-written 511 text buffer (omega arith) ∙ e)
