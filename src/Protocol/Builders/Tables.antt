-- ===== src/Protocol/Builders/Tables.antt =====
-- What a table builder returns, for any kind of record.
use tcpadapter.Common.{
  ℕ, suc, ◌+◌, ◌*◌, ◌%◌, ◌≤◌, ◌≡◌, refl, sym, ap, ◌↔◌, ◌||◌, List, [], ◌∷◌, ◌++◌, map, All, ok,
  wrap_err, arith, length, length-append, length-map, take, drop, take-length_append,
  drop-length_append, ltb, Bytes, byte_at, put_u32, >>=-eq-ok, wrap_err-eq-ok, fail_if-eq-ok,
}
use tcpadapter.Protocol.Payload.Faults.{Checked}
use tcpadapter.Protocol.Payload.Tables.{validate_table}
use tcpadapter.Protocol.Payload.Records.{records, validate_table-IsTable}
use tcpadapter.Protocol.Builders.Fields.{BuildError, invalid, Built, at_record}
use tcpadapter.Protocol.Builders.Records.{one_record}
use tcpadapter.Protocol.Builders.Sync.{build_each, build_table, table_bytes}

-- The records one after another.
abbrev pub joined : List Bytes → Bytes
joined [] = []
joined (b ∷ bs) = b ++ joined bs

pub take-all : (n : ℕ) (bs rest : Bytes) → length bs ≡ n → take n (bs ++ rest) ≡ bs
take-all n bs rest h = rw (sym h) (take-length_append bs rest)

past : (xs ys : Bytes) (m : ℕ) → byte_at (xs ++ ys) (length xs + m) ≡ byte_at ys m
past [] ys m = ap (byte_at ys) (omega arith)
past (x ∷ xs) ys m =
    let e : suc (length xs) + m ≡ suc (length xs + m) = omega arith in rw e (past xs ys m)

take-length : (bs : Bytes) → take (length bs) bs ≡ bs
take-length [] = refl
take-length (b ∷ bs) = ap (◌∷◌ b) (take-length bs)

pub take-whole : (n : ℕ) (bs : Bytes) → length bs ≡ n → take n bs ≡ bs
take-whole n bs h = rw (sym h) (take-length bs)

pub drop-all : (n : ℕ) (bs rest : Bytes) → length bs ≡ n → drop n (bs ++ rest) ≡ rest
drop-all n bs rest h = rw (sym h) (drop-length_append bs rest)

pub byte_after :
    (n m : ℕ) (xs ys : Bytes) → length xs ≡ n → byte_at (xs ++ ys) (n + m) ≡ byte_at ys m
byte_after n m xs ys h = rw (sym h) (past xs ys m)

pub records-joined :
    (size : ℕ) (bs : List Bytes)
    → All (λ b. length b ≡ size) bs
    → records (length bs) size (joined bs) ≡ bs
records-joined size [] h = refl
records-joined size (b ∷ bs) h =
    rw
      (take-all size b (joined bs) h.0, drop-all size b (joined bs) h.0, records-joined size bs h.1)

pub length-joined :
    (size : ℕ) (bs : List Bytes)
    → All (λ b. length b ≡ size) bs
    → length (joined bs) ≡ length bs * size
length-joined size [] h = omega arith
length-joined size (b ∷ bs) h =
    omega (arith, length-append b (joined bs), h.0, length-joined size bs h.1)

-- A frame with one record is accepted if the record is.
pub validate-one_record :
    (most size : ℕ) (check : Bytes → Checked) (rec : Bytes)
    → 1 ≤ most
    → length rec ≡ size
    → (validate_table most size check (one_record rec) ≡ ok tt) ↔ (check rec ≡ ok tt)
validate-one_record most size check rec h len =
    let (to, from) = validate_table-IsTable most size check (one_record rec) in
    let whole : take size rec ≡ rec = take-whole size rec len in
    (
      λ e. rw (sym whole) (to e).all.0,
      λ e. from record {
        headed = omega arith;
        some_records = omega arith;
        not_too_many = h;
        exact = omega arith;
        all = (rw whole e, tt);
      },
    )

module _ {ℓ} {A : Type ℓ} (size most : ℕ) (build : A → Built) (bytes : A → Bytes)
    (Good HasArrays : A → Type 0)
    (builds : (r : A) (b : Bytes) → HasArrays r → (build r ≡ ok b) ↔ (Good r × (b ≡ bytes r))) where
  pub build_each-joined :
      (i : ℕ) (rs : List A) (body : Bytes)
      → All HasArrays rs
      → (build_each build i rs ≡ ok body) ↔ (All Good rs × (body ≡ joined (map bytes rs)))
  unfolding build_each
  build_each-joined i [] body h = (λ e. (tt, cc), λ e. cc)
  build_each-joined i (r ∷ rs) body h = (
    λ e.
        let (b, eb, e1) = >>=-eq-ok (wrap_err (at_record i) (build r)) _ e in
        let (rest, er, e2) = >>=-eq-ok (build_each build (suc i) rs) _ e1 in
        let (good, eq) = (builds r b h.0).0 ((wrap_err-eq-ok (at_record i) (build r)).0 eb) in
        let (all, eq_rest) = (build_each-joined (suc i) rs rest h.1).0 er in ((good, all), cc),
    λ (g, eq).
        let built = (builds r (bytes r) h.0).1 (g.0, refl) in
        let others = (build_each-joined (suc i) rs (joined (map bytes rs)) h.1).1 (g.1, refl) in
        rw (built, others, eq) refl,
  )

  module _ (fault : ℕ → BuildError) (check : Bytes → Checked) (small : most ≤ 255)
      (accepted : (r : A)
        → HasArrays r
        → Good r
        → (length (bytes r) ≡ size) × (check (bytes r) ≡ ok tt)) where
    sizes :
        (rs : List A) → All HasArrays rs → All Good rs → All (λ b. length b ≡ size) (map bytes rs)
    sizes [] h g = tt
    sizes (r ∷ rs) h g = ((accepted r h.0 g.0).0, sizes rs h.1 g.1)

    All-accepted :
        (rs : List A) → All HasArrays rs → All Good rs → All (λ b. check b ≡ ok tt) (map bytes rs)
    All-accepted [] h g = tt
    All-accepted (r ∷ rs) h g = ((accepted r h.0 g.0).1, All-accepted rs h.1 g.1)

    -- The validation finds nothing to refuse.
    table-accepted :
        (timestamp : ℕ) (rs : List A)
        → All HasArrays rs
        → 1 ≤ length rs
        → length rs ≤ most
        → All Good rs
        → validate_table most size check (table_bytes timestamp (length rs) (joined (map bytes rs)))
          ≡ ok tt
    table-accepted timestamp rs h least not_more g =
        let count : length rs % 256 ≡ length rs = omega arith in
        let same = length-map rs bytes in
        let split = rw same at (records-joined size (map bytes rs) (sizes rs h g)) in
        let long = rw same at (length-joined size (map bytes rs) (sizes rs h g)) in
        (validate_table-IsTable most size check _).1 record {
          headed = omega arith;
          some_records = omega arith;
          not_too_many = omega arith;
          exact = rw count (omega (arith, long));
          all = rw (count, split) (All-accepted rs h g);
        }

    -- A table is built exactly if it has from one to `most` records and all of them can be built, and then it is the head and the records.
    pub build_table-Builds :
        (timestamp : ℕ) (rs : List A) (payload : Bytes)
        → All HasArrays rs
        → (build_table fault most build (validate_table most size check) timestamp rs ≡ ok payload)
          ↔ ((1 ≤ length rs)
              × (length rs ≤ most)
              × All Good rs
              × (payload ≡ put_u32 timestamp ++ length rs ∷ joined (map bytes rs)))
    unfolding build_table
    build_table-Builds timestamp rs payload h =
        let bad = ltb (length rs) 1 || ltb most (length rs) in
        (
          λ e.
              let (range, e1) = (fail_if-eq-ok bad _ _).0 e in
              let (body, each, e2) = >>=-eq-ok (build_each build 0 rs) _ e1 in
              let (good, joins) = (build_each-joined 0 rs body h).0 each in
              let (done, eval, e3) =
                >>=-eq-ok (wrap_err invalid (validate_table most size check _)) _ e2 in
              let count : length rs % 256 ≡ length rs = ground arith in
              let same : payload ≡ table_bytes timestamp (length rs) body = cc in
              (ground arith, ground arith, good, rw (same, joins, count) refl),
          λ (least, not_more, good, eq).
              let each = (build_each-joined 0 rs (joined (map bytes rs)) h).1 (good, refl) in
              let passes = table-accepted timestamp rs h least not_more good in
              let count : length rs % 256 ≡ length rs = ground arith in
              (fail_if-eq-ok bad _ _).1 (ground arith, rw (each, passes, count, eq) refl),
        )
