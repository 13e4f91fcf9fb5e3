-- ===== src/Exam/Session/Rows.antt =====
-- Reading a session back after an UPDATE of its row or of another row.
use mouseion.Prelude.{ℕ, ◌≡◌, ◌≢◌, refl, none, some, List, [], ◌∷◌, arith}
use mouseion.Effect.{ok, err}
use mouseion.Exam.Session.{
  session_not_found, SessionRow, Sessions, find_session, change_session, get_session,
  session_from_row,
}

pub find_session-id :
    (k : ℕ) (rs : List SessionRow) (r : SessionRow) → find_session k rs ≡ some r → r.id ≡ k
find_session-id k [] r h = cc
find_session-id k (x ∷ rs) r h = ground (arith, h, find_session-id k rs r)

pub find_session-change :
    (k : ℕ) (f : SessionRow → SessionRow) (rs : List SessionRow) (r : SessionRow)
    → ((x : SessionRow) → (f x).id ≡ x.id)
    → find_session k rs ≡ some r
    → find_session k (change_session k f rs) ≡ some (f r)
find_session-change k f [] r same h = cc
find_session-change k f (x ∷ rs) r same h =
    ground (arith, h, same x, find_session-change k f rs r same)

pub find_session-change_other :
    (j k : ℕ) (f : SessionRow → SessionRow) (rs : List SessionRow)
    → ((x : SessionRow) → (f x).id ≡ x.id)
    → j ≢ k
    → find_session j (change_session k f rs) ≡ find_session j rs
find_session-change_other j k f [] same ne = refl
find_session-change_other j k f (x ∷ rs) same ne =
    ground (arith, ne, same x, find_session-change_other j k f rs same ne)

pub get_session-found :
    (k : ℕ) (s : Sessions) (r : SessionRow)
    → find_session k s.rows ≡ some r
    → get_session k s ≡ (ok (session_from_row r), s)
unfolding get_session
get_session-found k s r h = rw (h, get_session)

pub get_session-missing :
    (k : ℕ) (s : Sessions)
    → find_session k s.rows ≡ none
    → get_session k s ≡ (err (session_not_found k), s)
unfolding get_session
get_session-missing k s h = rw (h, get_session)
