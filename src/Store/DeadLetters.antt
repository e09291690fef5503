-- ===== src/Store/DeadLetters.antt =====
-- memory.go: the dead letters, transactions that could not be applied or whose outcome is unknown.
use dts.Common.{
  String, Bool, true, false, ◌≡◌, refl, ◌∙◌, ap, sym, subst, All, List, [], ◌∷◌, Option, none, some,
  Result, ok, err, ltb, ◌||◌, ◌=s=◌, if◌then◌else◌, arith, Bool-cases, inl, inr, eq_iff,
}
use dts.Common.Keyed.{lookup, insert, delete}
use dts.Domain.{DeadLetter}
use dts.Store.Defs.{Store, StoreError, not_found}

module _ {E : Type 0} where
  -- `CreateCDCDeadLetter`
  unfoldable pub create_cdc_dead_letter : Store E → DeadLetter E → Store E
  create_cdc_dead_letter s v = record s { cdc_dead_letters = insert v.id v s.cdc_dead_letters }

  -- `UpdateCDCDeadLetter`
  unfoldable pub update_cdc_dead_letter : Store E → DeadLetter E → Result StoreError (Store E)
  update_cdc_dead_letter s v = elim (lookup v.id s.cdc_dead_letters) [
    | none ↦ err not_found
    | some old ↦ ok (record s { cdc_dead_letters = insert v.id v s.cdc_dead_letters })
  ]

  -- `GetCDCDeadLetter`
  unfoldable pub get_cdc_dead_letter : Store E → String → Result StoreError (DeadLetter E)
  get_cdc_dead_letter s id = elim (lookup id s.cdc_dead_letters) [
    | none ↦ err not_found
    | some v ↦ ok v
  ]

  -- `DeleteCDCDeadLetter`
  unfoldable pub delete_cdc_dead_letter : Store E → String → Store E
  delete_cdc_dead_letter s id = record s { cdc_dead_letters = delete id s.cdc_dead_letters }

  -- `taskID == "" || v.TaskID == taskID`
  abbrev pub is_listed : String → DeadLetter E → Bool
  is_listed task_id v = task_id =s= "" || v.task_id =s= task_id

  -- The loop of `ListCDCDeadLetters`.
  unfoldable pub letters_of : String → List (String × DeadLetter E) → List (DeadLetter E)
  letters_of task_id [] = []
  letters_of task_id ((id, v) ∷ letters) =
      if is_listed task_id v then v ∷ letters_of task_id letters else letters_of task_id letters

  -- Its sort: the one that was updated last comes first.
  unfoldable pub insert_letter : DeadLetter E → List (DeadLetter E) → List (DeadLetter E)
  insert_letter v [] = v ∷ []
  insert_letter v (w ∷ ws) =
      if ltb v.updated_at w.updated_at then w ∷ insert_letter v ws else v ∷ w ∷ ws

  unfoldable pub sort_letters : List (DeadLetter E) → List (DeadLetter E)
  sort_letters [] = []
  sort_letters (v ∷ vs) = insert_letter v (sort_letters vs)

  -- `ListCDCDeadLetters`
  unfoldable pub list_cdc_dead_letters : Store E → String → List (DeadLetter E)
  unfolding letters_of sort_letters insert_letter
  list_cdc_dead_letters s task_id = sort_letters (letters_of task_id s.cdc_dead_letters)

  -- The first letter that a loop stops at.
  unfoldable pub find_letter : (DeadLetter E → Bool) → List (DeadLetter E) → Option (DeadLetter E)
  find_letter test [] = none
  find_letter test (v ∷ vs) = if test v then some v else find_letter test vs

  -- None is found only if each letter fails the test.
  find_letter-insert_letter :
      (test : DeadLetter E → Bool) (v : DeadLetter E) (vs : List (DeadLetter E))
      → find_letter test (insert_letter v vs) ≡ none
      → (test v ≡ false) × (find_letter test vs ≡ none)
  unfolding find_letter insert_letter
  find_letter-insert_letter test v [] h = (ground (arith, h), refl)
  find_letter-insert_letter test v (w ∷ ws) h = elim (Bool-cases (ltb v.updated_at w.updated_at)) [
    | inl e ↦ ground (arith, h, find_letter-insert_letter test v ws)
    | inr e ↦ ground (arith, h)
  ]

  find_letter-sort_letters :
      (test : DeadLetter E → Bool) (vs : List (DeadLetter E))
      → find_letter test (sort_letters vs) ≡ none
      → find_letter test vs ≡ none
  unfolding find_letter sort_letters
  find_letter-sort_letters test [] h = refl
  find_letter-sort_letters test (v ∷ vs) h =
      let (fails, others) = find_letter-insert_letter test v (sort_letters vs) h in
      ground (arith, fails, find_letter-sort_letters test vs others)

  find_letter-letters_of :
      (test : DeadLetter E → Bool) (task_id id : String) (v : DeadLetter E)
      (letters : List (String × DeadLetter E))
      → lookup id letters ≡ some v
      → is_listed task_id v ≡ true
      → find_letter test (letters_of task_id letters) ≡ none
      → test v ≡ false
  unfolding find_letter letters_of lookup
  find_letter-letters_of test task_id id v [] found listed h = cc
  find_letter-letters_of test task_id id v ((key, w) ∷ letters) found listed h =
      ground (arith, find_letter-letters_of test task_id id v letters, eq_iff key id)

  -- If a listed letter passes the test, a loop over the list stops at one that does.
  pub find_letter-ne_none :
      (test : DeadLetter E → Bool) (task_id id : String) (v : DeadLetter E) (s : Store E)
      → lookup id s.cdc_dead_letters ≡ some v
      → is_listed task_id v ≡ true
      → find_letter test (list_cdc_dead_letters s task_id) ≡ none
      → test v ≡ false
  unfolding list_cdc_dead_letters
  find_letter-ne_none test task_id id v s found listed h =
      find_letter-letters_of test task_id id v s.cdc_dead_letters found listed
        (find_letter-sort_letters test (letters_of task_id s.cdc_dead_letters) h)

  find_letter-All :
      (P : DeadLetter E → Type 0) (test : DeadLetter E → Bool) (v : DeadLetter E)
      (vs : List (DeadLetter E))
      → All P vs
      → find_letter test vs ≡ some v
      → P v × (test v ≡ true)
  unfolding find_letter
  find_letter-All P test v [] all h = cc
  find_letter-All P test v (w ∷ ws) all h = elim (Bool-cases (test w)) [
    | inl e ↦
        let same : w ≡ v = ground (arith, e, h) in (subst P same all.0, ap test (sym same) ∙ e)
    | inr e ↦ find_letter-All P test v ws all.1 (rw (e, find_letter) at h)
  ]

  All-insert_letter :
      (P : DeadLetter E → Type 0) (v : DeadLetter E) (vs : List (DeadLetter E))
      → P v
      → All P vs
      → All P (insert_letter v vs)
  unfolding insert_letter
  All-insert_letter P v [] here all = (here, tt)
  All-insert_letter P v (w ∷ ws) here all = elim (Bool-cases (ltb v.updated_at w.updated_at)) [
    | inl e ↦ rw e (all.0, All-insert_letter P v ws here all.1)
    | inr e ↦ rw e (here, all)
  ]

  All-sort_letters :
      (P : DeadLetter E → Type 0) (vs : List (DeadLetter E)) → All P vs → All P (sort_letters vs)
  unfolding sort_letters
  All-sort_letters P [] all = tt
  All-sort_letters P (v ∷ vs) all =
      All-insert_letter P v (sort_letters vs) all.0 (All-sort_letters P vs all.1)

  letters_of-listed :
      (task_id : String) (letters : List (String × DeadLetter E))
      → All (λ v. is_listed task_id v ≡ true) (letters_of task_id letters)
  unfolding letters_of
  letters_of-listed task_id [] = tt
  letters_of-listed task_id ((id, v) ∷ letters) = elim (Bool-cases (is_listed task_id v)) [
    | inl e ↦ rw e (e, letters_of-listed task_id letters)
    | inr e ↦ rw e (letters_of-listed task_id letters)
  ]

  -- What a loop over the list stops at is listed, and passes the test.
  pub find_letter-is_listed :
      (test : DeadLetter E → Bool) (task_id : String) (v : DeadLetter E) (s : Store E)
      → find_letter test (list_cdc_dead_letters s task_id) ≡ some v
      → (is_listed task_id v ≡ true) × (test v ≡ true)
  unfolding list_cdc_dead_letters
  find_letter-is_listed test task_id v s h =
      find_letter-All (λ w. is_listed task_id w ≡ true) test v _
        (All-sort_letters _ _ (letters_of-listed task_id s.cdc_dead_letters)) h
