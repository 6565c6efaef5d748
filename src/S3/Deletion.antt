-- ===== src/S3/Deletion.antt =====
-- rohmu/object_storage/s3.py: what `delete_keys` asks for and gives notice of.
use rohmu.Util.Batches.{rejoin, Batched, batched_lem}
use rohmu.S3.Objects.{delete_keys, note_deleted, lift, delete_batches}
use rohmu.Base.{
  List, ◌∷◌, Outcome, ◌≡◌, None, [], ◌++◌, ok, sym, map, append-nil, err, ◌∙◌, arith, diverge,
  append_assoc, resume_rule, ap, ◌>>=◌, refl, subst, ap₂,
}
use rohmu.S3.{
  Request, S3Transfer, Reply, Event, Session, record_event, on_reply, delete_objects, Response,
  uncaught, try_except, answer, exchange, object_deleted, exchanged, path_of, client_error, failure,
  Text,
}

-- The lists of paths whose deletion the service has accepted, and the keys that notices name
unfoldable pub deletion : Request → Reply → List (List Text)
deletion (delete_objects bucket paths) (answer response) = paths ∷ []
deletion request reply = []

unfoldable pub deletions : List Event → List (List Text)
deletions [] = []
deletions (exchange request reply ∷ events) = deletions events ++ deletion request reply
deletions (event ∷ events) = deletions events

unfoldable pub noted : List Event → List Text
noted [] = []
noted (object_deleted key ∷ events) = noted events ++ key ∷ []
noted (event ∷ events) = noted events

module _ {C : Type 0} (transfer : S3Transfer) where
  -- So many batches have been deleted, each key with a notice, since the lists were these.
  abbrev Deleted : List (List Text) → List Text → List (List Text) → Session C → Type 0
  Deleted paths keys batches t =
      (deletions t.events ≡ paths ++ map (map (path_of transfer)) batches)
      × (noted t.events ≡ keys ++ rejoin batches)

  -- How a deletion of these batches ends: with all of them deleted, or with an exception behind the
  -- first ones.
  abbrev pub DeletionEnds :
      List (List Text) → List Text → List (List Text) → Outcome None × Session C → Type 0
  DeletionEnds paths keys batches (ok a, t) = Deleted paths keys batches t
  DeletionEnds paths keys batches (err e, t) =
      (done : List (List Text)) × (rest : List (List Text)) × (done ++ rest ≡ batches)
      × Deleted paths keys done t
  DeletionEnds paths keys batches (diverge, t) = ⊥

  note_deleted-noted :
      (keys : List Text) (s : Session C)
      → ((note_deleted keys s).0 ≡ ok tt)
        × (noted (note_deleted keys s).1.events ≡ noted s.events ++ keys)
        × (deletions (note_deleted keys s).1.events ≡ deletions s.events)
  unfolding note_deleted record_event noted deletions
  note_deleted-noted [] s = (refl, sym (append-nil (noted s.events)), refl)
  note_deleted-noted (key ∷ keys) s =
      let (returns, notes, same) =
        note_deleted-noted keys (record s { events = object_deleted key ∷ s.events }) in
      (returns, notes ∙ append_assoc (noted s.events) (key ∷ []) keys, same)

  -- One batch before the others
  DeletionEnds-batch :
      (paths : List (List Text)) (keys : List Text) (batch : List Text) (batches : List (List Text))
      → (x : Outcome None × Session C)
      → DeletionEnds (paths ++ map (path_of transfer) batch ∷ []) (keys ++ batch) batches x
      → DeletionEnds paths keys (batch ∷ batches) x
  unfolding rejoin
  DeletionEnds-batch paths keys batch batches (ok a, t) (d, n) = (
    d
        ∙ append_assoc paths (map (path_of transfer) batch ∷ [])
            (map (map (path_of transfer)) batches),
    n ∙ append_assoc keys batch (rejoin batches),
  )
  DeletionEnds-batch paths keys batch batches (err e, t) (done, rest, parts, (d, n)) = (
    batch ∷ done,
    rest,
    ap (λ bs. batch ∷ bs) parts,
    (
      d
          ∙ append_assoc paths (map (path_of transfer) batch ∷ [])
              (map (map (path_of transfer)) done),
      n ∙ append_assoc keys batch (rejoin done),
    ),
  )
  DeletionEnds-batch paths keys batch batches (diverge, t) h = h

  module _ (serve : Request → C → Reply × C) where
    BatchEnds : List (List Text) → List Text → List Text → Outcome Response × Session C → Type 0
    BatchEnds paths keys batch (ok response, t) =
        (deletions t.events ≡ paths ++ map (path_of transfer) batch ∷ []) × (noted t.events ≡ keys)
    BatchEnds paths keys batch (err e, t) = (deletions t.events ≡ paths) × (noted t.events ≡ keys)
    BatchEnds paths keys batch (diverge, t) = ⊥

    batch_replied :
        (batch : List Text) (s : Session C) (x : Reply × C)
        → BatchEnds (deletions s.events) (noted s.events) batch (
            on_reply uncaught x.0
              (exchanged (delete_objects transfer.bucket_name (map (path_of transfer) batch)) x s))
    unfolding BatchEnds on_reply deletions deletion noted
    batch_replied batch s (answer response, c) = (refl, refl)
    batch_replied batch s (client_error status, c) = (append-nil (deletions s.events), refl)
    batch_replied batch s (failure e, c) = (append-nil (deletions s.events), refl)

    delete_batches-DeletionEnds :
        (batches : List (List Text)) (s : Session C)
        → DeletionEnds
            (deletions s.events)
            (noted s.events)
            batches
            (delete_batches serve transfer batches s)
    unfolding delete_batches rejoin try_except BatchEnds
    delete_batches-DeletionEnds [] s =
        (sym (append-nil (deletions s.events)), sym (append-nil (noted s.events)))
    delete_batches-DeletionEnds (batch ∷ batches) s =
        let request = delete_objects transfer.bucket_name (map (path_of transfer) batch) in
        let x = serve request s.client in
        resume_rule (BatchEnds (deletions s.events) (noted s.events) batch)
          (DeletionEnds (deletions s.events) (noted s.events) (batch ∷ batches))
          (λ _. note_deleted batch >>= λ _. delete_batches serve transfer batches)
          (λ response t (d, n).
            let u = (note_deleted batch t).1 in
            let (returns, notes, same) = note_deleted-noted batch t in
            rw returns (
              DeletionEnds-batch (deletions s.events) (noted s.events) batch batches
                (delete_batches serve transfer batches u)
                (subst
                  (λ (v : List (List Text) × List Text).
                    DeletionEnds v.0 v.1 batches (delete_batches serve transfer batches u))
                  (ap₂ (λ a b. (a, b)) (same ∙ d) (notes ∙ ap (λ k. k ++ batch) n))
                  (delete_batches-DeletionEnds batches u))))
          (λ e t (d, n). (
            [],
            batch ∷ batches,
            refl,
            (d ∙ sym (append-nil (deletions s.events)), n ∙ sym (append-nil (noted s.events))),
          ))
          (λ t h. h) (on_reply uncaught x.0 (exchanged request x s)) (batch_replied batch s x)

-- `delete_keys` cuts the keys into batches of 1000, the last of 1 to 1000. If it returns, the service has
-- accepted the deletion of the paths of each batch, in order, and there is a notice for each key; if it
-- raises, this holds of some first batches, and no other key has a notice.
pub delete_keys-DeletionEnds :
    {C : Type 0} (serve : Request → C → Reply × C) (transfer : S3Transfer) (keys : List Text)
    (s : Session C)
    → (batches : List (List Text)) × (rejoin batches ≡ keys)
      × Batched 1000 batches
      × DeletionEnds transfer
          (deletions s.events)
          (noted s.events)
          batches
          (delete_keys serve transfer keys s)
unfolding delete_keys lift
delete_keys-DeletionEnds serve transfer keys s =
    let (batches, cut, all, sizes) = (batched_lem keys 1000).1 (omega arith) in
    (batches, all, sizes, rw cut (delete_batches-DeletionEnds transfer serve batches s))
