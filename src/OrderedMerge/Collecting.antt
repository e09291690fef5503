-- ===== src/OrderedMerge/Collecting.antt =====
-- The collecting loops against a plain description of valid input and of what is released.
use mathlib.Core.List.{append-nil, append_assoc}
use dts.Common.{
  ℕ, String, ◌≤◌, ◌<◌, ◌≡◌, ◌≢◌, refl, sym, ◌∙◌, ap, false, Bool-cases, inl, inr, List, [], ◌∷◌,
  ◌++◌, ltb, leb, All, if◌then◌else◌, arith, eq_iff, ok, ◌>>=◌, All-map, All-append, leb→le, le→leb,
  >>=-eq-ok,
}
use dts.OrderedMerge.Defs.{Fragment, Stream, seen_has, own, scan_fragments, scan_streams}
use dts.OrderedMerge.Sorting.{IsStreamOrdered}

-- The smaller of a watermark and the running minimum.
abbrev pub lower : ℕ → ℕ → ℕ
lower r m = if ltb r m then r else m

seen_has-false :
    (id : String) (seen : List String) → All (λ t. t ≢ id) seen → seen_has id seen ≡ false
unfolding seen_has
seen_has-false id [] h = refl
seen_has-false id (s ∷ seen) h = ground (arith, eq_iff s id, h.0, seen_has-false id seen h.1)

seen_has-All :
    (id : String) (seen : List String) → seen_has id seen ≡ false → All (λ t. t ≢ id) seen
unfolding seen_has
seen_has-All id [] h = tt
seen_has-All id (s ∷ seen) h = (ground (arith, eq_iff s id), seen_has-All id seen (ground arith))

module _ {A : Type 0} where
  -- What the comments of `Fragment` and `Stream` ask of one stream: its own fragments, with positive
  -- orders that do not fall.
  abbrev pub IsScanned : String → ℕ → List (Fragment A) → Type 0
  IsScanned id last [] = Unit
  IsScanned id last (f ∷ fs) =
      ((own id f).stream ≡ id) × (0 < f.order) × (last ≤ f.order) × IsScanned id f.order fs

  -- Named streams, no name twice, each with a watermark and in order.
  abbrev pub IsValidInput : List String → List (Stream A) → Type 0
  IsValidInput seen [] = Unit
  IsValidInput seen (s ∷ streams) =
      (s.id ≢ "")
      × All (λ t. t ≢ s.id) seen
      × (0 < s.resolved)
      × IsScanned s.id 0 s.fragments
      × IsValidInput (s.id ∷ seen) streams

  -- The fragments of one stream up to a watermark, named by their stream.
  abbrev pub upto : ℕ → String → List (Fragment A) → List (Fragment A)
  upto m id [] = []
  upto m id (f ∷ fs) = if leb f.order m then own id f ∷ upto m id fs else upto m id fs

  -- What the streams release, each up to the least watermark of the streams so far.
  abbrev pub released : ℕ → List (Stream A) → List (Fragment A)
  released m [] = []
  released m (s ∷ streams) =
      upto (lower s.resolved m) s.id s.fragments ++ released (lower s.resolved m) streams

  own-order : (id : String) (f : Fragment A) → (own id f).order ≡ f.order
  unfolding own
  own-order id f = ground arith

  pub scan_fragments-IsScanned :
      (id : String) (m last : ℕ) (fs all : List (Fragment A))
      → IsScanned id last fs
      → scan_fragments id m last fs all ≡ ok (all ++ upto m id fs)
  unfolding scan_fragments
  scan_fragments-IsScanned id m last [] all h = ap ok (sym (append-nil all))
  scan_fragments-IsScanned id m last (f ∷ fs) all h = ground (
    arith,
    eq_iff (own id f).stream id,
    eq_iff f.stream "",
    h.0,
    scan_fragments-IsScanned id m f.order fs (all ++ (own id f ∷ [])) h.3,
    scan_fragments-IsScanned id m f.order fs all h.3,
    append_assoc all (own id f ∷ []) (upto m id fs),
  )

  -- What a successful scan of one fragment has tested, and the scan that it goes on with.
  scan_fragments_step :
      (id : String) (m last : ℕ) (f : Fragment A) (fs all : List (Fragment A))
      {r : List (Fragment A)}
      → scan_fragments id m last (f ∷ fs) all ≡ ok r
      → ((own id f).stream ≡ id)
        × (0 < f.order)
        × (last ≤ f.order)
        × (scan_fragments id m f.order fs (if leb f.order m then all ++ (own id f ∷ []) else all)
            ≡ ok r)
  unfolding scan_fragments
  scan_fragments_step id m last f fs all h =
      ground (arith, eq_iff (own id f).stream id, eq_iff f.stream "", eq_iff f.stream id)

  pub IsScanned-scan_fragments :
      (id : String) (m last : ℕ) (fs all : List (Fragment A)) {r : List (Fragment A)}
      → scan_fragments id m last fs all ≡ ok r
      → IsScanned id last fs
  IsScanned-scan_fragments id m last [] all h = tt
  IsScanned-scan_fragments id m last (f ∷ fs) all h =
      let (own_stream, positive, ordered, rest) = scan_fragments_step id m last f fs all h in
      (own_stream, positive, ordered, IsScanned-scan_fragments id m f.order fs _ rest)

  pub scan_streams-IsValidInput :
      (seen : List String) (m : ℕ) (streams : List (Stream A)) (all : List (Fragment A))
      → IsValidInput seen streams
      → scan_streams seen m streams all ≡ ok (all ++ released m streams)
  unfolding scan_streams
  scan_streams-IsValidInput seen m [] all h = ap ok (sym (append-nil all))
  scan_streams-IsValidInput seen m (s ∷ streams) all h =
      let m' = lower s.resolved m in
      ground (
        arith,
        eq_iff s.id "",
        h.0,
        seen_has-false s.id seen h.1,
        scan_fragments-IsScanned s.id m' 0 s.fragments all h.3,
        scan_streams-IsValidInput (s.id ∷ seen) m' streams (all ++ upto m' s.id s.fragments) h.4,
        append_assoc all (upto m' s.id s.fragments) (released m' streams),
      )

  -- What a successful scan of one stream has tested, and the scans that it is made of.
  scan_streams_step :
      (seen : List String) (m : ℕ) (s : Stream A) (streams : List (Stream A))
      (all : List (Fragment A)) {r : List (Fragment A)}
      → scan_streams seen m (s ∷ streams) all ≡ ok r
      → (s.id ≢ "")
        × (seen_has s.id seen ≡ false)
        × (0 < s.resolved)
        × ((scan_fragments s.id (lower s.resolved m) 0 s.fragments all >>= λ all'.
              scan_streams (s.id ∷ seen) (lower s.resolved m) streams all')
            ≡ ok r)
  unfolding scan_streams
  scan_streams_step seen m s streams all h = ground (arith, eq_iff s.id "")

  pub IsValidInput-scan_streams :
      (seen : List String) (m : ℕ) (streams : List (Stream A)) (all : List (Fragment A))
      {r : List (Fragment A)}
      → scan_streams seen m streams all ≡ ok r
      → IsValidInput seen streams
  IsValidInput-scan_streams seen m [] all h = tt
  IsValidInput-scan_streams seen m (s ∷ streams) all h =
      let (named, fresh, marked, rest) = scan_streams_step seen m s streams all h in
      let (all', inner, outer) = >>=-eq-ok _ _ rest in
      (
        named,
        seen_has-All s.id seen fresh,
        marked,
        IsScanned-scan_fragments s.id _ 0 s.fragments all inner,
        IsValidInput-scan_streams (s.id ∷ seen) _ streams all' outer,
      )

  -- What one stream releases bears its name, lies between the last order and the watermark, and is in
  -- order.
  pub upto_bounds :
      (m : ℕ) (id : String) (last : ℕ) (fs : List (Fragment A))
      → IsScanned id last fs
      → All (λ g. (g.stream ≡ id) × (last ≤ g.order) × (g.order ≤ m)) (upto m id fs)
  upto_bounds m id last [] h = tt
  upto_bounds m id last (f ∷ fs) h =
      let later =
        All-map _ (λ g. (g.stream ≡ id) × (last ≤ g.order) × (g.order ≤ m))
          (λ g k. (k.0, omega (arith, k, h.2), k.2)) (upto m id fs)
          (upto_bounds m id f.order fs h.3) in
      elim (Bool-cases (leb f.order m)) [
        | inl e ↦ rw e ((h.0, rw own-order h.2, rw own-order (leb→le _ _ e)), later)
        | inr e ↦ rw e later
      ]

  upto-IsStreamOrdered :
      (m : ℕ) (id : String) (last : ℕ) (fs : List (Fragment A))
      → IsScanned id last fs
      → IsStreamOrdered (upto m id fs)
  upto-IsStreamOrdered m id last [] h = tt
  upto-IsStreamOrdered m id last (f ∷ fs) h =
      let later = upto-IsStreamOrdered m id f.order fs h.3 in
      elim (Bool-cases (leb f.order m)) [
        | inl e ↦ rw e (
          All-map _ _ (λ g k _. rw own-order k.1) (upto m id fs) (upto_bounds m id f.order fs h.3),
          later,
        )
        | inr e ↦ rw e later
      ]

  -- Nothing released passes the running minimum.
  pub released-le :
      (seen : List String) (m : ℕ) (streams : List (Stream A))
      → IsValidInput seen streams
      → All (λ f. f.order ≤ m) (released m streams)
  released-le seen m [] h = tt
  released-le seen m (s ∷ streams) h =
      let m' = lower s.resolved m in
      let low : m' ≤ m = ground arith in
      All-append _ (upto m' s.id s.fragments) (released m' streams)
        (All-map _ _ (λ g k. omega (arith, k.2, low)) _ (upto_bounds m' s.id 0 s.fragments h.3))
        (All-map _ _ (λ g k. omega (arith, k, low)) _ (released-le (s.id ∷ seen) m' streams h.4))

  -- What later streams release bears no name that was seen.
  released_fresh :
      (seen : List String) (m : ℕ) (streams : List (Stream A))
      → IsValidInput seen streams
      → All (λ f. All (λ t. t ≢ f.stream) seen) (released m streams)
  released_fresh seen m [] h = tt
  released_fresh seen m (s ∷ streams) h =
      let m' = lower s.resolved m in
      All-append _ (upto m' s.id s.fragments) (released m' streams)
        (All-map _ _ (λ g k. All-map _ _ (λ t q e. q (e ∙ k.0)) seen h.1) _
          (upto_bounds m' s.id 0 s.fragments h.3))
        (All-map _ _ (λ g k. k.1) _ (released_fresh (s.id ∷ seen) m' streams h.4))

  append-IsStreamOrdered :
      (id : String) (xs ys : List (Fragment A))
      → All (λ f. f.stream ≡ id) xs
      → All (λ g. id ≢ g.stream) ys
      → IsStreamOrdered xs
      → IsStreamOrdered ys
      → IsStreamOrdered (xs ++ ys)
  append-IsStreamOrdered id [] ys h k p q = q
  append-IsStreamOrdered id (x ∷ xs) ys h k p q = (
    All-append _ xs ys p.0 (All-map _ _ (λ g r e. absurd (r (sym h.0 ∙ sym e))) ys k),
    append-IsStreamOrdered id xs ys h.1 k p.1 q,
  )

  pub released-IsStreamOrdered :
      (seen : List String) (m : ℕ) (streams : List (Stream A))
      → IsValidInput seen streams
      → IsStreamOrdered (released m streams)
  released-IsStreamOrdered seen m [] h = tt
  released-IsStreamOrdered seen m (s ∷ streams) h =
      let m' = lower s.resolved m in
      append-IsStreamOrdered s.id (upto m' s.id s.fragments) (released m' streams)
        (All-map _ _ (λ g k. k.0) _ (upto_bounds m' s.id 0 s.fragments h.3))
        (All-map _ _ (λ g k. k.0) _ (released_fresh (s.id ∷ seen) m' streams h.4))
        (upto-IsStreamOrdered m' s.id 0 s.fragments h.3)
        (released-IsStreamOrdered (s.id ∷ seen) m' streams h.4)

  -- A first fragment within the watermark is released.
  pub upto-first :
      (n m : ℕ) (id : String) (f : Fragment A) (fs : List (Fragment A))
      → f.order ≤ m
      → All (λ g. g.order ≤ n) (upto m id (f ∷ fs))
      → f.order ≤ n
  upto-first n m id f fs within h =
      let h' = rw (le→leb f.order m within, if◌then◌else◌) at h in rw own-order at h'.0
