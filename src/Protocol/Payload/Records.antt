-- ===== src/Protocol/Payload/Records.antt =====
-- What an accepted table holds.
use tcpadapter.Common.{
  ℕ, zero, suc, ◌+◌, ◌*◌, ◌≤◌, ◌≡◌, ◌↔◌, refl, Bool, true, not, ◌||◌, List, [], ◌∷◌, All, ok, err,
  ◌>>◌, wrap_err, arith, length, take, drop, ltb, ◌==◌, Bytes, byte_at, Bool-cases, inl, inr,
}
use tcpadapter.Protocol.Payload.Faults.{
  Fault, Checked, check_each, check_records, in_record, guarded,
}
use tcpadapter.Protocol.Payload.Tables.{validate_table}

-- `count` records of `size` bytes.
abbrev pub records : ℕ → ℕ → Bytes → List Bytes
records zero size bs = []
records (suc count) size bs = take size bs ∷ records count size (drop size bs)

pub check_each-All :
    (fault : ℕ → ℕ → Fault) (test : ℕ → Bool) (i : ℕ) (bs : Bytes)
    → (check_each fault test i bs ≡ ok tt) ↔ All (λ b. test b ≡ true) bs
unfolding check_each
check_each-All fault test i [] = (λ h. tt, λ h. refl)
check_each-All fault test i (b ∷ bs) =
    let (to, from) = check_each-All fault test (suc i) bs in
    elim (Bool-cases (test b)) [
      | inl t ↦ rw t (λ h. (refl, to h), λ h. from h.1)
      | inr t ↦ rw t (λ h. cc, λ h. cc)
    ]

wrapped :
    (f : Fault → Fault) (r s : Checked) → (wrap_err f r >> s ≡ ok tt) ↔ ((r ≡ ok tt) × (s ≡ ok tt))
wrapped f (ok tt) s = (λ h. (refl, h), λ h. h.1)
wrapped f (err x) s = (λ h. cc, λ h. cc)

pub check_records-All :
    (check : Bytes → Checked) (size i count : ℕ) (bs : Bytes)
    → (check_records check size i count bs ≡ ok tt)
      ↔ All (λ rec. check rec ≡ ok tt) (records count size bs)
unfolding check_records
check_records-All check size i zero bs = (λ h. tt, λ h. refl)
check_records-All check size i (suc count) bs =
    let (to, from) = check_records-All check size (suc i) count (drop size bs) in
    let (both, back) = wrapped (in_record i) (check (take size bs)) _ in
    (λ h. let (x, y) = both h in (x, to y), λ h. back (h.0, from h.1))

-- What the validation of a table asks for.
pub record IsTable (most size : ℕ) (check : Bytes → Checked) (payload : Bytes) : Type 0 where
  pub headed : 5 ≤ length payload
  pub some_records : 1 ≤ byte_at payload 4
  pub not_too_many : byte_at payload 4 ≤ most
  pub exact : length payload ≡ 5 + byte_at payload 4 * size
  pub all : All (λ rec. check rec ≡ ok tt) (records (byte_at payload 4) size (drop 5 payload))

-- A payload with a table is accepted exactly if it has its head, a count that is not 0 and not over
-- the limit, the length that the count asks for, and only records that pass their check.
pub validate_table-IsTable :
    (most size : ℕ) (check : Bytes → Checked) (payload : Bytes)
    → (validate_table most size check payload ≡ ok tt) ↔ IsTable most size check payload
unfolding validate_table
validate_table-IsTable most size check payload =
    let n = byte_at payload 4 in
    let (to, from) = check_records-All check size 0 n (drop 5 payload) in
    (
      λ h.
          let (a, h1) = (guarded (ltb (length payload) 5) _ _).0 h in
          let (b, h2) = (guarded (ltb n 1 || ltb most n) _ _).0 h1 in
          let (c, h3) = (guarded (not (length payload == 5 + n * size)) _ _).0 h2 in
          record {
            headed = ground arith;
            some_records = ground arith;
            not_too_many = ground arith;
            exact = ground arith;
            all = to h3;
          },
      λ t. (guarded (ltb (length payload) 5) _ _).1 (
        ground (arith, t.headed),
        (guarded (ltb n 1 || ltb most n) _ _).1 (
          ground (arith, t.some_records, t.not_too_many),
          (guarded (not (length payload == 5 + n * size)) _ _).1
              (ground (arith, t.exact), from t.all),
        ),
      ),
    )
