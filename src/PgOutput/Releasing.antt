-- ===== src/PgOutput/Releasing.antt =====
-- What a message does to the decoder, and when a transaction is released.
use dts.Common.{
  ℕ, Bool, true, false, ◌≡◌, refl, subst, ◌||◌, ◌==◌, if◌then◌else◌, [], ◌∷◌, ◌++◌, map, Option,
  none, some, Result, ok, err, arith,
}
use dts.Common.Bytes.{Bytes}
use dts.Domain.{CdcEvent}
use dts.PgOutput.Wire.{
  PgError, commit_without_begin, outside_transaction, Parse, ◌>>=◌, give, raise, CopyData,
  keepalive, xlog, parse_copy_data,
}
use dts.PgOutput.Text.{format_lsn, unix_milli}
use dts.PgOutput.Tuples.{Relation}
use dts.PgOutput.Decoder.{
  Transaction, Decoder, Step, set_relation, stamp, add_event, on_begin, commit_current, on_commit,
  on_relation, on_insert, on_update, on_delete, on_message, on_plugin, push,
}

-- The abstract decoder: what one message may return and leave.
pub data IsStep (d : Decoder) : Option Transaction → Decoder → Type 0 where
  idle : IsStep d none d
  began :
      (xid time : ℕ)
      → IsStep d none (record d {
        current =
            some
              (record { xid = xid; events = []; commit_lsn = 0; end_lsn = 0; commit_time = time });
      })
  learned :
      (r : Relation) → IsStep d none (record d { relations = set_relation r.id r d.relations })
  added :
      (t : Transaction) (e : CdcEvent Bytes)
      → d.current ≡ some t
      → IsStep d none (record d { current = some (record t { events = t.events ++ (e ∷ []) }) })
  released :
      (t : Transaction) (commit end time : ℕ)
      → d.current ≡ some t
      → IsStep d
          (some (record t {
            events = map (stamp d.position_type (format_lsn end) (unix_milli time)) t.events;
            commit_lsn = commit;
            end_lsn = end;
            commit_time = time;
          }))
          (record d { current = none })

-- Whatever the parser returns satisfies `P`.
record Always {A : Type 0} (P : A → Type 0) (m : Parse A) : Type 0 where
  holds : (c : Bytes) (a : A) (c' : Bytes) → m c ≡ ok (a, c') → P a

module _ {A : Type 0} {P : A → Type 0} where
  give-Always : (a : A) → P a → Always P (give a)
  give-Always a h = record { holds = λ c b c' e. subst P (ground (arith, e)) h }

  raise-Always : (e : PgError) → Always P (raise e)
  raise-Always e = record { holds = λ c a c' h. cc h }

  rest-Always :
      {B : Type 0} (f : B → Parse A) (r : Result PgError (B × Bytes)) (a : A) (c' : Bytes)
      → ((b : B) → Always P (f b))
      → ◌≡◌ {A = Result PgError (A × Bytes)}
          (elim r [ ok (b, c) ↦ f b c | err e ↦ err e ])
          (ok (a, c'))
      → P a
  rest-Always f (ok (b, c)) a c' h e = (h b).holds c a c' e
  rest-Always f (err x) a c' h e = cc e

  >>=-Always :
      {B : Type 0} (m : Parse B) (f : B → Parse A) → ((b : B) → Always P (f b)) → Always P (m >>= f)
  unfolding ◌>>=◌
  >>=-Always m f h = record { holds = λ c a c' e. rest-Always f (m c) a c' h e }

  if-Always : (b : Bool) (m k : Parse A) → Always P m → Always P k → Always P (if b then m else k)
  if-Always true m k hm hk = hm
  if-Always false m k hm hk = hk

-- The step relation as a predicate of what a case returns.
abbrev Does : Decoder → Step → Type 0
Does d step = IsStep d step.0 step.1

add_event-cases :
    (d : Decoder) (e : CdcEvent Bytes) (o : Option Transaction)
    → d.current ≡ o
    → Always (Does d) (elim o [
      | none ↦ raise outside_transaction
      | some t ↦
          give (none, record d { current = some (record t { events = t.events ++ (e ∷ []) }) })
    ])
add_event-cases d e none h = raise-Always _
add_event-cases d e (some t) h = give-Always _ (added t e h)

add_event-Does : (d : Decoder) (e : CdcEvent Bytes) → Always (Does d) (add_event d e)
unfolding add_event
add_event-Does d e = add_event-cases d e d.current refl

commit_current-cases :
    (d : Decoder) (commit end time : ℕ) (o : Option Transaction)
    → d.current ≡ o
    → Always (Does d) (elim o [
      | none ↦ raise commit_without_begin
      | some t ↦ give (
        some (record t {
          events = map (stamp d.position_type (format_lsn end) (unix_milli time)) t.events;
          commit_lsn = commit;
          end_lsn = end;
          commit_time = time;
        }),
        record d { current = none },
      )
    ])
commit_current-cases d commit end time none h = raise-Always _
commit_current-cases d commit end time (some t) h = give-Always _ (released t commit end time h)

commit_current-Does :
    (d : Decoder) (commit end time : ℕ) → Always (Does d) (commit_current d commit end time)
unfolding commit_current
commit_current-Does d commit end time = commit_current-cases d commit end time d.current refl

on_begin-Does : (d : Decoder) → Always (Does d) (on_begin d)
unfolding on_begin
on_begin-Does d =
    >>=-Always _ _
      (λ _. >>=-Always _ _ (λ time. >>=-Always _ _ (λ xid. give-Always _ (began xid time))))

on_commit-Does : (d : Decoder) → Always (Does d) (on_commit d)
unfolding on_commit
on_commit-Does d = >>=-Always _ _ (λ _. >>=-Always _ _ (λ commit.
    >>=-Always _ _ (λ end. >>=-Always _ _ (λ time. commit_current-Does d commit end time))))

on_relation-Does : (d : Decoder) → Always (Does d) (on_relation d)
unfolding on_relation
on_relation-Does d = >>=-Always _ _ (λ r. give-Always _ (learned r))

on_insert-Does : (d : Decoder) (wal_start : ℕ) → Always (Does d) (on_insert d wal_start)
unfolding on_insert
on_insert-Does d wal_start =
    >>=-Always _ _
      (λ _. >>=-Always _ _ (λ _. >>=-Always _ _ (λ _. >>=-Always _ _ (λ _. add_event-Does d _))))

on_update-Does : (d : Decoder) (wal_start : ℕ) → Always (Does d) (on_update d wal_start)
unfolding on_update
on_update-Does d wal_start = >>=-Always _ _ (λ _. >>=-Always _ _ (λ _. >>=-Always _ _ (λ _.
    >>=-Always _ _ (λ before.
      if-Always (before.1 == 78) _ _ (>>=-Always _ _ (λ _. add_event-Does d _)) (raise-Always _)))))

on_delete-Does : (d : Decoder) (wal_start : ℕ) → Always (Does d) (on_delete d wal_start)
unfolding on_delete
on_delete-Does d wal_start = >>=-Always _ _ (λ _. >>=-Always _ _ (λ _. >>=-Always _ _ (λ tag.
    if-Always (tag == 75 || tag == 79) _ _ (>>=-Always _ _ (λ _. add_event-Does d _))
      (raise-Always _))))

on_message-Does :
    (d : Decoder) (wal_start type_ : ℕ) → Always (Does d) (on_message d wal_start type_)
unfolding on_message
on_message-Does d wal_start type_ = if-Always (type_ == 66) _ _ (on_begin-Does d) (
    if-Always (type_ == 67) _ _ (on_commit-Does d) (
      if-Always (type_ == 82) _ _ (on_relation-Does d) (
        if-Always (type_ == 73) _ _ (on_insert-Does d wal_start) (
          if-Always (type_ == 85) _ _ (on_update-Does d wal_start) (
            if-Always (type_ == 68) _ _ (on_delete-Does d wal_start) (
              if-Always (type_ == 89 || type_ == 79 || type_ == 77 || type_ == 84) _ _
                (give-Always _ idle) (raise-Always _)))))))

plugin-result :
    (d : Decoder) (r : Result PgError (Step × Bytes)) (step : Step)
    → ((c' : Bytes) (a : Step) → r ≡ ok (a, c') → Does d a)
    → ◌≡◌ {A = Result PgError Step} (elim r [ ok (a, c') ↦ ok a | err e ↦ err e ]) (ok step)
    → Does d step
plugin-result d (ok (a, c')) step h e = subst (Does d) (ground (arith, e)) (h c' a refl)
plugin-result d (err x) step h e = cc e

on_plugin-Does :
    (d : Decoder) (wal_start : ℕ) (c : Bytes) (step : Step)
    → on_plugin d wal_start c ≡ ok step
    → Does d step
unfolding on_plugin
on_plugin-Does d wal_start [] step e = cc e
on_plugin-Does d wal_start (type_ ∷ c) step e =
    plugin-result d (on_message d wal_start type_ c) step
      (λ c' a. (on_message-Does d wal_start type_).holds c a c') e

push-result :
    (d : Decoder) (r : Result PgError CopyData) (step : Step)
    → ◌≡◌ {A = Result PgError Step}
        (elim r [
          | err e ↦ err e
          | ok keepalive ↦ ok (none, d)
          | ok (xlog x) ↦ on_plugin d x.wal_start x.plugin
        ])
        (ok step)
    → Does d step
push-result d (err x) step e = cc e
push-result d (ok keepalive) step e = subst (Does d) (ground (arith, e)) idle
push-result d (ok (xlog x)) step e = on_plugin-Does d x.wal_start x.plugin step e

-- `Push` refines the abstract decoder: whatever bytes it accepts, it does nothing, begins a transaction,
-- learns a relation, adds one event at the end of the open transaction, or closes the open transaction
-- and returns it, with its events in order and all stamped with the position and time of the COMMIT.
pub push-IsStep :
    (d : Decoder) (data_ : Bytes) {out : Option Transaction} {after : Decoder}
    → push d data_ ≡ ok (out, after)
    → IsStep d out after
unfolding push
push-IsStep d data_ {out} {after} e = push-result d (parse_copy_data data_) (out, after) e
