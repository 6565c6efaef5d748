-- ===== src/Inotify/Moves.antt =====
-- rohmu/inotify.py: the two events of a move are put together by their cookie.
use rohmu.Base.{
  ℕ, Bytes, List, ◌∷◌, ◌≡◌, some, Outcome, ==_refl, ℤ, refl, ok, ◌≢◌, [], ◌>>=◌, ◌++◌, Bool-cases,
  ◌==◌, inl, inr, ap, ap₂,
}
use rohmu.Inotify.{
  source_of, create_event, ℕ, decoded, on_watch, dispatch, has, put, Watcher, path_of, join_path,
  forget_cookie, moved, moved_here, Message,
}

source_first :
    (c : ℕ) (path : Bytes) (d : List (ℕ × Bytes)) → source_of c ((c, path) ∷ d) ≡ some path
unfolding source_of
source_first c path d = rw (==_refl c) refl

forget_cookie-forget_cookie :
    (c : ℕ) (d : List (ℕ × Bytes)) → forget_cookie c (forget_cookie c d) ≡ forget_cookie c d
unfolding forget_cookie
forget_cookie-forget_cookie c [] = refl
forget_cookie-forget_cookie c ((k, path) ∷ d) = elim (Bool-cases (k == c)) [
  | inl e ↦ rw e (forget_cookie-forget_cookie c d)
  | inr e ↦ rw (e, e) (ap (λ t. (k, path) ∷ t) (forget_cookie-forget_cookie c d))
]

forget_cookie-again :
    (c : ℕ) (path : Bytes) (d : List (ℕ × Bytes))
    → forget_cookie c ((c, path) ∷ forget_cookie c d) ≡ forget_cookie c d
unfolding forget_cookie
forget_cookie-again c path d = rw (==_refl c) (forget_cookie-forget_cookie c d)

moved_here-some :
    (source full watched : Bytes)
    → source ≢ []
    → moved_here (some source) full watched ≡ moved full source watched
unfolding moved_here
moved_here-some [] full watched h = absurd (h refl)
moved_here-some (c ∷ cs) full watched h = refl

-- A file that is moved from one watched directory to another, with any other cookies waiting, gives
-- one message with both its paths, and its cookie waits no longer.
pub create_event-moved :
    (decode : Bytes → Outcome Bytes) (s : Watcher) (from to : ℤ) (cookie : ℕ)
    (here there name name' : Bytes) (raw raw' : Bytes)
    → decode raw ≡ ok name
    → decode raw' ≡ ok name'
    → path_of from s.watch_to_path ≡ some here
    → path_of to s.watch_to_path ≡ some there
    → join_path here name ≢ []
    → (create_event decode (record { wd = from; mask = 64; cookie = cookie; name = raw }) >>= λ _.
          create_event decode (record { wd = to; mask = 128; cookie = cookie; name = raw' }))
        s
      ≡ (
        ok tt,
        record s {
          cookies = forget_cookie cookie s.cookies;
          queue = s.queue ++ moved (join_path there name') (join_path here name) there ∷ [];
        },
      )
unfolding create_event decoded on_watch dispatch has put
create_event-moved decode s from to cookie here there name name' raw raw' d d' p p' full =
    rw (d, p, d', p', source_first cookie (join_path here name) (forget_cookie cookie s.cookies))
      (ap₂
        (λ (message : Message) (d : List (ℕ × Bytes)).
          (ok tt, record s { cookies = d; queue = s.queue ++ message ∷ [] }))
        (moved_here-some (join_path here name) (join_path there name') there full)
        (forget_cookie-again cookie (join_path here name) s.cookies))
