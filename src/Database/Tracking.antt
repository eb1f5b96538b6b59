-- ===== src/Database/Tracking.antt =====
-- The authorized fob list and the revision, over the statements of the worker.
use thelab_ms.Base.{
  ℕ, ◌+◌, String, ◌≡◌, refl, Bool, true, false, Option, List, [], ◌∷◌, string_eq, nat_eq, bool_eq,
  option_eq, if◌then◌else◌, any, leb, subst, arith, inl, inr, Bool-cases,
}
use thelab_ms.Rows.{Member}
use thelab_ms.Database.Tables.{Database}
use thelab_ms.Database.Updates.{Outcome, done, unique_failed, foreign_key_failed, or_nothing}
use thelab_ms.Database.Statements.{
  Statement, link_discord, register, refresh_identity, begin_sync, publish_sync, link_customer,
  save_customer, request_sync, record_swipe, bind_fob, sign_waiver, preregister, sign_by_email,
  create_member, edit_member, save_billing, delete, exec, insert_swipe, sign_only, Swipe, Edit,
  edit_row, has_source, has_id, has_either_email,
}
use thelab_ms.Database.Tracks.{
  Tracks, Tracks-refl, Tracks-trans, update_members-Tracks, insert_member-Tracks,
  insert_waiver-Tracks, delete_member-Tracks,
}

done-Tracks : {a b c : Database} → Tracks a b → done b ≡ done c → Tracks a c
done-Tracks {a} {b} {c} t h = let e : b ≡ c = cc in subst (λ x. Tracks a x) e t

sign_only-Tracks :
    (now : ℕ) (name email : String) (ms : List Member) (a : Database)
    → Tracks a (sign_only now name email ms a)
unfolding sign_only
sign_only-Tracks now name email [] a = Tracks-refl a
sign_only-Tracks now name email (m ∷ []) a = insert_waiver-Tracks now name email m.member_id a
sign_only-Tracks now name email (m ∷ n ∷ ms) a = Tracks-refl a

insert_swipe-Tracks : (e : Swipe) (a : Database) → Tracks a (insert_swipe e a)
unfolding insert_swipe
insert_swipe-Tracks e a = elim (Bool-cases (any (has_source e.id) a.member_events)) [
  | inl old ↦ rw old (Tracks-refl a)
  | inr new ↦ rw new (record { grows = omega arith; faithful = λ _. refl })
]

-- A statement that does nothing on some test, and else inserts a row.
guarded-Tracks :
    (b : Bool) (o : Outcome) {a c : Database}
    → (o ≡ done c → Tracks a c)
    → (if b then done a else o) ≡ done c
    → Tracks a c
guarded-Tracks true o {a} {c} k h = done-Tracks (Tracks-refl a) h
guarded-Tracks false o k h = k h

or_nothing-Tracks :
    {a b : Database} (o : Outcome)
    → ((c : Database) → o ≡ done c → Tracks a c)
    → or_nothing a o ≡ done b
    → Tracks a b
unfolding or_nothing
or_nothing-Tracks {b} (done c) k h = done-Tracks (k c refl) h
or_nothing-Tracks {a} (unique_failed column) k h = done-Tracks (Tracks-refl a) h
or_nothing-Tracks foreign_key_failed k h = cc

signed-Tracks :
    (b : Bool) {a c d : Database}
    → Tracks a c
    → (if b then done c else foreign_key_failed) ≡ done d
    → Tracks a d
signed-Tracks true t h = done-Tracks t h
signed-Tracks false t h = cc

request_sync-Tracks :
    (s : ℕ) (a : Database)
    → Tracks a (
        if leb (a.edge_changes.sync_requested + 600) s
        then record a { edge_changes = record a.edge_changes { sync_requested = s } }
        else a)
request_sync-Tracks s a = elim (Bool-cases (leb (a.edge_changes.sync_requested + 600) s)) [
  | inl e ↦ rw e (record { grows = omega arith; faithful = λ _. refl })
  | inr e ↦ rw e (Tracks-refl a)
]

edit_row-waiver_signed :
    (v : Edit) (discord : Option String) (customer : Bool) (m : Member)
    → (edit_row v discord customer m).waiver_signed ≡ m.waiver_signed
unfolding exec
edit_row-waiver_signed v discord customer m = ground arith

exec-Tracks : (now : ℕ) (s : Statement) (a b : Database) → exec now s a ≡ done b → Tracks a b
unfolding exec
exec-Tracks now (link_discord d e) a b h = update_members-Tracks now _ _ a b (λ m. refl) h
exec-Tracks now (register id d e) a b h = guarded-Tracks _ _ (insert_member-Tracks now _ a b) h
exec-Tracks now (refresh_identity u e d) a b h = update_members-Tracks now _ _ a b (λ m. refl) h
exec-Tracks now (begin_sync id c) a b h = update_members-Tracks now _ _ a b (λ m. refl) h
exec-Tracks now (publish_sync x id c n) a b h = update_members-Tracks now _ _ a b (λ m. refl) h
exec-Tracks now (link_customer c r) a b h = update_members-Tracks now _ _ a b (λ m. refl) h
exec-Tracks now (save_customer c id n) a b h = update_members-Tracks now _ _ a b (λ m. refl) h
exec-Tracks now (request_sync s) a b h = done-Tracks (request_sync-Tracks s a) h
exec-Tracks now (record_swipe e) a b h = done-Tracks (insert_swipe-Tracks e a) h
exec-Tracks now (bind_fob f id) a b h = update_members-Tracks now _ _ a b (λ m. refl) h
exec-Tracks now (sign_waiver n e id) a b h =
    signed-Tracks (any (has_id id) a.members) (insert_waiver-Tracks now n e id a) h
exec-Tracks now (preregister id e) a b h =
    guarded-Tracks (any (has_either_email e) a.members) _
      (or_nothing-Tracks _ (insert_member-Tracks now _ a)) h
exec-Tracks now (sign_by_email n e) a b h = done-Tracks (sign_only-Tracks now n e _ a) h
exec-Tracks now (create_member id v) a b h = guarded-Tracks _ _ (insert_member-Tracks now _ a b) h
exec-Tracks now (edit_member v d c id) a b h =
    update_members-Tracks now _ _ a b (edit_row-waiver_signed v d c) h
exec-Tracks now (save_billing y d id n) a b h = update_members-Tracks now _ _ a b (λ m. refl) h
exec-Tracks now (delete id) a b h = done-Tracks (delete_member-Tracks now id a) h

-- A failed statement is rolled back.
abbrev pub settle : Database → Outcome → Database
settle db (done db') = db'
settle db _ = db

-- Any statements, each at its own time, by any requests in any order.
unfoldable pub run : List (ℕ × Statement) → Database → Database
run [] db = db
run ((now, s) ∷ rest) db = run rest (settle db (exec now s db))

settle-Tracks :
    (a : Database) (o : Outcome)
    → ((b : Database) → o ≡ done b → Tracks a b)
    → Tracks a (settle a o)
settle-Tracks a (done b) k = k b refl
settle-Tracks a (unique_failed column) k = Tracks-refl a
settle-Tracks a foreign_key_failed k = Tracks-refl a

-- Whatever statements the worker's requests run, failing ones included, the revision of
-- `edge_changes` never falls, and if it stands where it stood, the authorized fobs are the same.
pub run-Tracks : (statements : List (ℕ × Statement)) (db : Database) → Tracks db (run statements db)
unfolding run
run-Tracks [] db = Tracks-refl db
run-Tracks ((now, s) ∷ rest) db =
    Tracks-trans (settle-Tracks db (exec now s db) (exec-Tracks now s db)) (run-Tracks rest _)
