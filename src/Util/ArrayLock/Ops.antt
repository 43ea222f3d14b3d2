-- ===== src/Util/ArrayLock/Ops.antt =====
-- The accesses of util/array_lock.h to the shared bytes, in terms of the set of bits, and `try_op` where
-- no other thread comes between.
use Prim.Native.Nat.{bit_and, bit_or}
use selib.Prelude.{
  ℕ, ◌/◌, ◌%◌, ◌<◌, ◌≤◌, ◌≡◌, ◌⊎◌, ◌∙◌, sym, ap, refl, inl, inr, Bool, true, false, not, some, none,
  ◌==◌, if◌then◌else◌, arith, get_or, Bool-cases, ==_iff, eq→==, beq-eq, ◌≢◌,
}
use mathlib.Core.Bool.{beq}
use native.Mathlib.Nat.{mod-lt}
use selib.Util.BitArray.{BitArray, bit_of, bit_mask, clear_mask}
use selib.Util.BitArray.Bytes.{set_byte, clear_byte, clear_byte_same}
use selib.Util.BitArray.Laws.{
  IsValid, contents, read_byte, stored, stored-IsValid, contents-stored, contents_in, contents_out,
  test_bit_lem, test_true, test_false,
}
use selib.Util.ArrayLock.{try_begin, load, cas_old, cas_new, cas, try_op}

module _ {b : BitArray} (p : ℕ) (v : IsValid b) (h : p < b.buf_len) where
  pub try_begin_lem :
      (s : Bool)
      → try_begin b p s ≡ some (if beq (contents b p) s then none else some (p / 8, p % 8))
  unfolding try_begin
  try_begin_lem s =
      let (e, f) = test_true h in
      elim (Bool-cases (beq (contents b p) s)) [
        | inl g ↦ rw (test_bit_lem p v, f, g, try_begin)
        | inr g ↦ rw (test_bit_lem p v, f, g, try_begin)
      ]

  pub load_lem : load b (p / 8) ≡ some (get_or b.bits_buf (p / 8) 0)
  unfolding load
  load_lem = read_byte p v h

  -- The compare-and-swap of `try_op`, with any byte `old` that was read before. It fails and changes
  -- nothing, or it gives the bit its value and changes no other; one that sets the bit wins only where the
  -- bit is not set.
  pub cas_lem :
      (s : Bool) (old : ℕ)
      → old < 256
      → (cas b (p / 8) (cas_old s old (p % 8)) (cas_new s old (p % 8)) ≡ some (false, b))
        ⊎ ((b' : BitArray) × (cas b (p / 8) (cas_old s old (p % 8)) (cas_new s old (p % 8))
              ≡ some (true, b'))
            × IsValid b'
            × (b'.buf_len ≡ b.buf_len)
            × (s ≡ true → contents b p ≡ false)
            × ((q : ℕ) → contents b' q ≡ (if p == q then s else contents b q)))
  unfolding cas cas_old cas_new
  cas_lem true old small =
      elim (Bool-cases (get_or b.bits_buf (p / 8) 0 == bit_and old (clear_mask 7 (p % 8)))) [
        | inr e ↦ inl (rw (read_byte p v h, e))
        | inl e ↦
            let same = (==_iff _ _).0 e in
            let was =
              λ (o : ℕ) (ho : o < 8). clear_byte old (p % 8) o small (mod-lt p (omega arith)) ho in
            let is =
              λ (o : ℕ) (ho : o < 8). set_byte old (p % 8) o small (mod-lt p (omega arith)) ho in
            inr (
              stored b p (bit_or old (bit_mask 7 (p % 8))),
              rw (read_byte p v h, e),
              stored-IsValid p _ v h (is 0 (omega arith)).0,
              refl,
              λ _.
                  contents_in b p h
                  ∙ ap (λ (t : ℕ). bit_of 7 t (p % 8)) same
                  ∙ (was (p % 8) (mod-lt p (omega arith))).1
                  ∙ rw (eq→== (p % 8) (p % 8) refl),
              contents-stored p _ v h true (λ o ho. rw same (ground (arith, is o ho, was o ho))),
            )
      ]
  cas_lem false old small = elim (Bool-cases (get_or b.bits_buf (p / 8) 0 == old)) [
    | inr e ↦ inl (rw (read_byte p v h, e))
    | inl e ↦
        let same = (==_iff _ _).0 e in
        let is =
          λ (o : ℕ) (ho : o < 8). clear_byte old (p % 8) o small (mod-lt p (omega arith)) ho in
        inr (
          stored b p (bit_and old (clear_mask 7 (p % 8))),
          rw (read_byte p v h, e),
          stored-IsValid p _ v h (is 0 (omega arith)).0,
          refl,
          λ f. cc,
          contents-stored p _ v h false (λ o ho. rw same (is o ho).1),
        )
  ]

-- The compare-and-swap wins if the byte read is the current one and the bit differs from what is asked
-- for.
pub cas_wins :
    {b : BitArray} (p : ℕ) (s : Bool)
    → IsValid b
    → p < b.buf_len
    → beq (contents b p) s ≡ false
    → cas b
        (p / 8)
        (cas_old s (get_or b.bits_buf (p / 8) 0) (p % 8))
        (cas_new s (get_or b.bits_buf (p / 8) 0) (p % 8))
      ≢ some (false, b)
unfolding cas cas_old cas_new
cas_wins {b} p true v h e lost =
    let same =
      clear_byte_same (get_or b.bits_buf (p / 8) 0) (p % 8) (v.bytes (p / 8))
        (mod-lt p (omega arith)) (sym (contents_in b p h) ∙ ground arith) in
    ground (arith, read_byte p v h)
cas_wins {b} p false v h e lost = ground (arith, read_byte p v h)

-- `try_op`, where no other thread comes between: it returns true exactly where the bit differs from what
-- is asked for; then the bit gets that value, and no other bit changes.
pub try_op_lem :
    {b : BitArray} (p : ℕ) (s : Bool)
    → IsValid b
    → p < b.buf_len
    → (b' : BitArray) × (try_op b p s ≡ some (not (beq (contents b p) s), b'))
      × IsValid b'
      × (b'.buf_len ≡ b.buf_len)
      × ((q : ℕ) → contents b' q ≡ (if p == q then s else contents b q))
unfolding try_op
try_op_lem {b} p s v h = elim (Bool-cases (beq (contents b p) s)) [
  | inl e ↦ (
    b,
    rw (try_begin_lem p v h s, e),
    v,
    refl,
    λ q. elim (Bool-cases (p == q)) [
      | inl same ↦ rw same (ap (contents b) (sym ((==_iff p q).0 same)) ∙ beq-eq (contents b p) s e)
      | inr other ↦ rw other
    ],
  )
  | inr e ↦ elim (cas_lem p v h s (get_or b.bits_buf (p / 8) 0) (v.bytes (p / 8))) [
    | inl lost ↦ absurd (cas_wins p s v h e lost)
    | inr (b', won, v', same, _, w) ↦
        (b', rw (try_begin_lem p v h s, e, load_lem p v h, won), v', same, w)
  ]
]

-- Out of range `try_op` that is to set the bit reads through a null pointer, and one that is to clear it
-- returns false.
pub try_op_out :
    {b : BitArray} (p : ℕ)
    → IsValid b
    → b.buf_len ≤ p
    → (try_op b p true ≡ none) × (try_op b p false ≡ some (false, b))
unfolding try_op try_begin
try_op_out {b} p v h =
    let out : ¬ (p < b.buf_len) = omega arith in
    let (e, f) = test_false out in
    (rw (test_bit_lem p v, f, contents_out b p out), rw (test_bit_lem p v, f, contents_out b p out))
