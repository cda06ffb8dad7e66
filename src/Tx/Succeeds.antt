-- ===== src/Tx/Succeeds.antt =====
-- Actions that return, where the database answers each of their calls: what must hold of the tables
-- before, and what holds after. One rule for each way to build an action.
use cc_005_offline_inspectio.Base.{ℕ, ◌≡◌, refl, []}
use cc_005_offline_inspectio.Db.{Db}
use cc_005_offline_inspectio.Tx.{ok, World, Tx, Statement, pure, statement, now, ◌>>=◌, ◌>>◌}
use cc_005_offline_inspectio.Tx.Inversion.{Returns}

pub record Succeeds (P Q : Db → Type 0) (m : Tx (Unit {0})) : Type 0 where
  pub run :
      (w : World)
      → w.outcomes ≡ []
      → P w.db
      → (w' : World) × Returns m w tt w' × (w'.outcomes ≡ []) × Q w'.db

pub Succeeds-pure : (P : Db → Type 0) → Succeeds P P (pure tt)
unfolding pure
Succeeds-pure P = record { run = λ w calm p. (w, (refl, refl), calm, p) }

pub Succeeds-statement :
    (P Q : Db → Type 0) (s : Statement (Unit {0}))
    → ((db : Db) → P db → (db' : Db) × (s db ≡ ok (tt, db')) × Q db')
    → Succeeds P Q (statement s)
unfolding statement
Succeeds-statement P Q s h = record {
  run = λ w calm p.
      let (db', done, q) = h w.db p in
      (record w { db = db' }, rw (calm, done) (refl, refl), calm, q);
}

pub Succeeds-now :
    (P Q : Db → Type 0) (f : ℕ → Tx (Unit {0}))
    → ((at : ℕ) → Succeeds P Q (f at))
    → Succeeds P Q (now >>= f)
unfolding now ◌>>=◌
Succeeds-now P Q f h = record { run = λ w calm p. (h w.clock).run w calm p }

pub Succeeds-then :
    (P Q R : Db → Type 0) (m n : Tx (Unit {0}))
    → Succeeds P Q m
    → Succeeds Q R n
    → Succeeds P R (m >> n)
unfolding ◌>>=◌
Succeeds-then P Q R m n hm hn = record {
  run = λ w calm p.
      let (v, (did, left), still, q) = hm.run w calm p in
      let (w', (done, last), quiet, r) = hn.run v still q in
      (w', rw (did, left) (done, last), quiet, r);
}
