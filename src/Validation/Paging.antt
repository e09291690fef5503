-- ===== src/Validation/Paging.antt =====
-- checksum.go: a scan reads each row that its connector has for it once, in order, whatever the batches.
use dts.Common.{
  ℕ, zero, suc, String, true, false, ◌≡◌, ◌<◌, refl, sym, ◌∙◌, ap, ltb, List, [], ◌∷◌, Option, some,
  Result, ok, length, take, drop, length-take, length-drop, ◌≤◌, ltb→lt, ltb-false, arith, inl, inr,
  Bool-cases,
}
use dts.Common.Bytes.{Bytes}
use dts.Validation.Values.{Row}
use dts.Validation.Scanning.{Request, Batch, done, is_empty, add_rows, scan}

module _ {S K : Type 0} (read : Request S K → Result String (Batch K))
    (rest : Request S K → List Row) where
  -- A connector over data that do not change: a batch holds the next rows behind the cursor, at most as
  -- many as the limit, and `rest` lists all of them. The last key of a batch stands behind its rows.
  pub record IsConnector : Type 0 where
    pub batch : Request S K → Batch K
    pub reads : (req : Request S K) → read req ≡ ok (batch req)
    pub rows : (req : Request S K) → (batch req).rows ≡ take req.limit (rest req)
    pub by_key :
        (req : Request S K)
        → req.use_keyset ≡ true
        → is_empty (batch req).rows ≡ false
        → (is_empty (batch req).last_key ≡ false)
          × (rest (record req { cursor = (batch req).last_key }) ≡ drop req.limit (rest req))
    pub by_pk :
        (req : Request S K)
        → req.use_keyset ≡ false
        → is_empty (batch req).rows ≡ false
        → rest (record req { after_pk = some (batch req).last_pk }) ≡ drop req.limit (rest req)

  -- From a request that fits, the loop takes one that fits and stands behind the batch's rows.
  pub record IsAdvancing (Fits : Request S K → Type 0)
      (advance : Batch K → Request S K → Result String (Request S K))
      (batch : Request S K → Batch K) : Type 0 where
    pub next : Request S K → Request S K
    pub keeps : (req : Request S K) → Fits req → Fits (next req)
    pub advances :
        (req : Request S K)
        → Fits req
        → is_empty (batch req).rows ≡ false
        → (advance (batch req) req ≡ ok (next req))
          × (rest (next req) ≡ drop req.limit (rest req))
          × ((next req).limit ≡ req.limit)

length-empty : {A : Type 0} (xs : List A) → is_empty xs ≡ true → length xs ≡ 0
length-empty [] h = refl
length-empty (x ∷ xs) h = cc

module _ (encode : Row → Option Bytes) where
  -- The bytes of rows, one by one.
  pub data IsEncoded : List Row → List Bytes → Type 0 where
    no_rows : IsEncoded [] []
    row :
        {r : Row} {rs : List Row} {b : Bytes} {bs : List Bytes}
        → encode r ≡ some b
        → IsEncoded rs bs
        → IsEncoded (r ∷ rs) (b ∷ bs)

  take-IsEncoded :
      (n : ℕ) {rs : List Row} {bs : List Bytes}
      → IsEncoded rs bs
      → IsEncoded (take n rs) (take n bs)
  take-IsEncoded zero h = no_rows
  take-IsEncoded (suc n) no_rows = no_rows
  take-IsEncoded (suc n) (row e h) = row e (take-IsEncoded n h)

  drop-IsEncoded :
      (n : ℕ) {rs : List Row} {bs : List Bytes}
      → IsEncoded rs bs
      → IsEncoded (drop n rs) (drop n bs)
  drop-IsEncoded zero h = h
  drop-IsEncoded (suc n) no_rows = no_rows
  drop-IsEncoded (suc n) (row e h) = drop-IsEncoded n h

  pub length-IsEncoded : {rs : List Row} {bs : List Bytes} → IsEncoded rs bs → length bs ≡ length rs
  length-IsEncoded no_rows = refl
  length-IsEncoded (row e h) = ap suc (length-IsEncoded h)

module _ {A : Type 0} (put : A → Bytes → A) where
  -- The rows hashed one after the other.
  unfoldable pub puts : A → List Bytes → A
  puts a [] = a
  puts a (b ∷ bs) = puts (put a b) bs

  puts-take-drop :
      (n : ℕ) (a : A) (bs : List Bytes) → puts (puts a (take n bs)) (drop n bs) ≡ puts a bs
  unfolding puts
  puts-take-drop zero a bs = refl
  puts-take-drop (suc n) a [] = refl
  puts-take-drop (suc n) a (b ∷ bs) = puts-take-drop n (put a b) bs

  puts-none : (a : A) (bs : List Bytes) → length bs ≡ 0 → a ≡ puts a bs
  unfolding puts
  puts-none a [] h = refl
  puts-none a (b ∷ bs) h = ground arith

  -- A batch that is not full holds all that is left.
  puts-short :
      (n : ℕ) (a : A) (bs : List Bytes) → length (take n bs) < n → puts a (take n bs) ≡ puts a bs
  unfolding puts
  puts-short zero a bs h = ground arith
  puts-short (suc n) a [] h = refl
  puts-short (suc n) a (b ∷ bs) h = puts-short n (put a b) bs (omega (arith, h))

module _ {S K A : Type 0} (read : Request S K → Result String (Batch K))
    (encode : Row → Option Bytes) (put : A → Bytes → A)
    (advance : Batch K → Request S K → Result String (Request S K)) where
  add_rows-puts :
      (a : A) {rs : List Row} {bs : List Bytes}
      → IsEncoded encode rs bs
      → add_rows read encode put advance a rs ≡ some (puts put a bs)
  unfolding add_rows puts
  add_rows-puts a no_rows = refl
  add_rows-puts a (row {b = b} e h) = rw e (add_rows-puts (put a b) h)

  -- One batch of a scan, if all goes well.
  scan_batch :
      (n : ℕ) (req next : Request S K) (b : Batch K) (a a' end : A)
      → read req ≡ ok b
      → add_rows read encode put advance a b.rows ≡ some a'
      → (is_empty b.rows ≡ true → a ≡ end)
      → (is_empty b.rows ≡ false → advance b req ≡ ok next)
      → (length b.rows < req.limit → a' ≡ end)
      → (is_empty b.rows ≡ false
          → req.limit ≤ length b.rows
          → scan read encode put advance n next a' ≡ done end)
      → scan read encode put advance (suc n) req a ≡ done end
  unfolding scan
  scan_batch n req next b a a' end reads added nothing advances short on =
      rw reads (elim (Bool-cases (is_empty b.rows)) [
        | inl e ↦ rw e (ap done (nothing e))
        | inr e ↦ rw e (
            rw added (
              rw (advances e) (elim (Bool-cases (ltb (length b.rows) req.limit)) [
                | inl l ↦ rw l (ap done (short (ltb→lt _ _ l)))
                | inr l ↦ rw l (on e (ltb-false _ _ l))
              ])))
      ])

  module _ (rest : Request S K → List Row) (connector : IsConnector read rest)
      (Fits : Request S K → Type 0)
      (advancing : IsAdvancing read rest Fits advance connector.batch) where
    -- The scan from a request whose limit is not 0, with more fuel than there are rows, hashes all of them.
    pub scan-puts :
        (n : ℕ) (req : Request S K) (a : A) (bs : List Bytes)
        → Fits req
        → 0 < req.limit
        → length (rest req) < n
        → IsEncoded encode (rest req) bs
        → scan read encode put advance n req a ≡ done (puts put a bs)
    scan-puts zero req a bs fits limit enough h = ground arith
    scan-puts (suc n) req a bs fits limit enough h =
        let b : Batch K = connector.batch req in
        let rows = connector.rows req in
        let front = take-IsEncoded encode req.limit h in
        let back = drop-IsEncoded encode req.limit h in
        let next = advancing.next req in
        let held = ap length rows ∙ length-take req.limit (rest req) in
        let left = length-drop req.limit (rest req) in
        scan_batch n req next b a (puts put a (take req.limit bs)) (puts put a bs)
          (connector.reads req) (rw rows (add_rows-puts a front))
          (λ e.
            puts-none put a bs
              (omega (arith, length-empty b.rows e, held, length-IsEncoded encode h)))
          (λ e. (advancing.advances req fits e).0)
          (λ l.
            puts-short put req.limit a bs
              (rw (length-IsEncoded encode front ∙ sym (ap length rows)) l))
          (λ e l.
            let (moves, after, same) = advancing.advances req fits e in
            scan-puts n next (puts put a (take req.limit bs)) (drop req.limit bs)
              (advancing.keeps req fits) (rw same limit) (omega (arith, ap length after, left))
              (rw after back)
            ∙ ap done (puts-take-drop put req.limit a bs))
