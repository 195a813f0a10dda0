-- ===== src/Memory/Accounts.antt =====
-- What the counters of the default allocator say of its blocks.
use fast_queue.Prelude.{
  ℕ, suc, ◌+◌, ◌-◌, ◌%◌, ◌^◌, ◌≤◌, ◌<◌, ◌≡◌, ◌≢◌, refl, ap, ◌∙◌, true, Bool-cases, inl, inr, some,
  List, [], ◌∷◌, ◌++◌, length, add64, sub64, leb_int, arith,
}
use fast_queue.Memory.Default.{
  Libc, Default, raise_peak, masked_size, stats_alloc, stats_free, store_size, headed_block,
  default_alloc, default_free,
}

-- `a <= b` of two patterns of `int`
abbrev pub LeInt : ℕ → ℕ → Type 0
LeInt a b = leb_int a b ≡ true

-- Whatever exchanges fail, and whatever peak each of them leaves, the loop ends with a peak that is
-- not below the new value.
pub raise_peak_reaches :
    (fails : List ℕ) (new_val peak : ℕ)
    → new_val < 2 ^ 32
    → LeInt new_val (raise_peak fails new_val peak)
unfolding raise_peak
raise_peak_reaches [] new_val peak h = ground arith
raise_peak_reaches (seen ∷ fails) new_val peak h = elim (Bool-cases (leb_int new_val peak)) [
  | inl e ↦ rw e e
  | inr e ↦ rw e (raise_peak_reaches fails new_val seen h)
]

-- A block of the C library's: the address that `malloc` gave, and the size asked of the allocator.
abbrev pub Block : Type 0
Block = ℕ × ℕ

-- The bytes that the blocks count for.
unfoldable pub bytes : List Block → ℕ
bytes [] = 0
bytes ((b, n) ∷ l) = masked_size n + bytes l

unfoldable pub Fresh : ℕ → List Block → Type 0
Fresh p [] = Unit
Fresh p ((b, n) ∷ l) = (p ≢ b) × Fresh p l

unfoldable pub Headed : (ℕ → ℕ) → List Block → Type 0
Headed header [] = Unit
Headed header ((b, n) ∷ l) = (header b ≡ n) × Headed header l

-- The counters tell of the blocks `l`, modulo 2^32, and each block has its size in its header.
pub record Accounted {S : Type 0} (d : Default S) (l : List Block) : Type 0 where
  pub allocated_eq : d.counters.allocated ≡ bytes l % 2 ^ 32
  pub alloc_eq : d.counters.alloc_count ≡ (d.counters.free_count + length l) % 2 ^ 32
  pub free_small : d.counters.free_count < 2 ^ 32
  pub headed : Headed d.header l

store_size-Headed :
    (header : ℕ → ℕ) (b n : ℕ) (l : List Block)
    → Fresh b l
    → Headed header l
    → Headed (store_size header b n) l
unfolding Fresh Headed
store_size-Headed header b n [] f h = tt
store_size-Headed header b n ((p, m) ∷ l) f h =
    (ground (arith, f.0), store_size-Headed header b n l f.1 h.1)

bytes-middle :
    (l r : List Block) (b n : ℕ) → bytes (l ++ (b, n) ∷ r) ≡ masked_size n + bytes (l ++ r)
unfolding bytes
bytes-middle [] r b n = refl
bytes-middle ((p, m) ∷ l) r b n = omega (arith, bytes-middle l r b n)

length-middle : (l r : List Block) (x : Block) → length (l ++ x ∷ r) ≡ suc (length (l ++ r))
length-middle [] r x = refl
length-middle (y ∷ l) r x = ap suc (length-middle l r x)

Headed-middle :
    (header : ℕ → ℕ) (l r : List Block) (b n : ℕ)
    → Headed header (l ++ (b, n) ∷ r)
    → (header b ≡ n) × Headed header (l ++ r)
unfolding Headed
Headed-middle header [] r b n h = h
Headed-middle header ((p, m) ∷ l) r b n h =
    let t = Headed-middle header l r b n h.1 in (t.0, (h.0, t.1))

module _ {S : Type 0} (c : Libc S) where
  -- Where `malloc` gives a block at an address that no block has, the default allocator returns the
  -- address behind its header, and the block joins those that the counters tell of.
  pub default_alloc-Accounted :
      (fails : List ℕ) (size b : ℕ) (s : S) (d : Default S) (l : List Block)
      → Accounted d l
      → c.malloc (add64 8 size) d.libc ≡ (some b, s)
      → Fresh b l
      → (d' : Default S) × (default_alloc c fails size d ≡ (some (add64 b 8), d'))
        × Accounted d' ((b, size) ∷ l)
  unfolding default_alloc stats_alloc bytes Headed
  default_alloc-Accounted fails size b s d l a e f = (
    record {
      libc = s;
      header = store_size d.header b size;
      counters = stats_alloc fails size d.counters;
    },
    ap (headed_block fails size d d.counters) e,
    record {
      allocated_eq = omega (arith, a);
      alloc_eq = omega (arith, a);
      free_small = a.free_small;
      headed = (ground arith, store_size-Headed d.header b size l f a.headed);
    },
  )

  -- To free any of the blocks that the counters tell of, by the address that the program has, passes
  -- `free` the address that `malloc` gave, and takes the block off those that the counters tell of.
  pub default_free-Accounted :
      (fails : List ℕ) (l r : List Block) (b n : ℕ) (d : Default S)
      → Accounted d (l ++ (b, n) ∷ r)
      → b < 2 ^ 64
      → (d' : Default S) × (default_free c fails (some (add64 b 8)) d ≡ d')
        × (d'.libc ≡ c.free b d.libc)
        × Accounted d' (l ++ r)
  unfolding default_free stats_free
  default_free-Accounted fails l r b n d a h =
      let t = Headed-middle d.header l r b n a.headed in
      (
        default_free c fails (some (add64 b 8)) d,
        refl,
        ap (λ (p : ℕ). c.free p d.libc) back,
        record {
          allocated_eq = omega (arith, a, bytes-middle l r b n, ap d.header back, t.0);
          alloc_eq = omega (arith, a, length-middle l r (b, n));
          free_small = omega arith;
          headed = t.1;
        },
      )
    where
      back : sub64 (add64 b 8) 8 ≡ b
      back = omega arith

  -- A size above 2^64 - 9 wraps: the default allocator then asks `malloc` for less than a header.
  pub default_alloc_wraps :
      (fails : List ℕ) (size b : ℕ) (s : S) (d : Default S)
      → 2 ^ 64 - 8 ≤ size
      → size < 2 ^ 64
      → c.malloc (size - (2 ^ 64 - 8)) d.libc ≡ (some b, s)
      → (d' : Default S) × (default_alloc c fails size d ≡ (some (add64 b 8), d'))
        × (size - (2 ^ 64 - 8) < 8)
        × (d'.header b ≡ size)
  unfolding default_alloc
  default_alloc_wraps fails size b s d lo hi e = (
    record {
      libc = s;
      header = store_size d.header b size;
      counters = stats_alloc fails size d.counters;
    },
    ap (λ (n : ℕ). headed_block fails size d d.counters (c.malloc n d.libc)) asked
        ∙ ap (headed_block fails size d d.counters) e,
    omega arith,
    ground arith,
  )
    where
      asked : add64 8 size ≡ size - (2 ^ 64 - 8)
      asked = omega arith
