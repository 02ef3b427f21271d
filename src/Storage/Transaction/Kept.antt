-- ===== src/Storage/Transaction/Kept.antt =====
-- What the statements of a transaction keep, the transaction keeps, however it ends.
use socket_prac.Prelude.{◌≡◌, refl, ap, ◌≤◌, Option, none, some, arith}
use socket_prac.Core.ErrorCode.{Expected}
use socket_prac.Storage.Tables.{Tables}
use socket_prac.Storage.Transaction.{
  Sql, ◌>>=◌, pure, query, Outcome, commits, fails_at_once, fails_to_commit, commits_unheard,
  roll_back, finish, transact, Server, Database, run,
}

module _ {A B : Type 0} (m : Sql A) (f : A → Sql B) (t t' : Tables) where
  -- What comes after a statement that gave rows, and after one that did not.
  pub >>=-some : (a : A) → m t ≡ (some a, t') → (m >>= f) t ≡ f a t'
  >>=-some a e =
      ap
        (λ (r : Option A × Tables). elim r.0 as (λ _. Option B × Tables) [
          | none ↦ (none, r.1)
          | some a ↦ f a r.1
        ])
        e

  pub >>=-none : m t ≡ (none, t') → (m >>= f) t ≡ (none, t')
  >>=-none e =
      ap
        (λ (r : Option A × Tables). elim r.0 as (λ _. Option B × Tables) [
          | none ↦ (none, r.1)
          | some a ↦ f a r.1
        ])
        e

-- A sequence that gives a result has given one at each step.
pub >>=-eq-some :
    {A B : Type 0} (m : Sql A) (f : A → Sql B) (t t' : Tables) (b : B)
    → (m >>= f) t ≡ (some b, t')
    → (a : A) × (t1 : Tables) × (m t ≡ (some a, t1)) × (f a t1 ≡ (some b, t'))
>>=-eq-some {A} {B} m f t t' b e = go (m t) e
  where
    go :
        (r : Option A × Tables)
        → (elim r.0 as (λ _. Option B × Tables) [ none ↦ (none, r.1) | some a ↦ f a r.1 ])
          ≡ (some b, t')
        → (a : A) × (t1 : Tables) × (r ≡ (some a, t1)) × (f a t1 ≡ (some b, t'))
    go (none, t1) e = absurd (ground arith)
    go (some a, t1) e = (a, t1, refl, e)

-- A result that is computed from the rows leaves their tables.
pub >>=-pure :
    {A B : Type 0} (m : Sql A) (f : A → B) (t : Tables) → ((m >>= λ a. pure (f a)) t).1 ≡ (m t).1
>>=-pure {A} {B} m f t = go (m t)
  where
    go :
        (r : Option A × Tables)
        → (elim r.0 as (λ _. Option B × Tables) [
          | none ↦ (none, r.1)
          | some a ↦ (some (f a), r.1)
        ]).1
          ≡ r.1
    go (none, t') = refl
    go (some a, t') = refl

-- The tables after some statements: I holds of them, and no sequence went back.
pub record Advances (I : Tables → Type 0) (t t' : Tables) : Type 0 where
  pub kept : I t'
  pub room_seq : t.room_seq ≤ t'.room_seq
  pub message_seq : t.message_seq ≤ t'.message_seq

pub Advances-refl : {I : Tables → Type 0} {t : Tables} → I t → Advances I t t
Advances-refl h = record { kept = h; room_seq = omega arith; message_seq = omega arith }

pub Advances-trans :
    {I : Tables → Type 0} {t t' t'' : Tables}
    → Advances I t t'
    → Advances I t' t''
    → Advances I t t''
Advances-trans p q = record {
  kept = q.kept;
  room_seq = omega (arith, p.room_seq, q.room_seq);
  message_seq = omega (arith, p.message_seq, q.message_seq);
}

pub record Maintains (I : Tables → Type 0) {A : Type 0} (m : Sql A) : Type 0 where
  pub at : (t : Tables) → I t → Advances I t (m t).1

module _ {I : Tables → Type 0} {A : Type 0} where
  -- A query changes nothing.
  pub query-Maintains : (f : Tables → A) → Maintains I (query f)
  query-Maintains f = record { at = λ t h. Advances-refl h }

  pub >>=-Maintains :
      {B : Type 0} (m : Sql A) (f : A → Sql B)
      → Maintains I m
      → ((a : A) → Maintains I (f a))
      → Maintains I (m >>= f)
  >>=-Maintains {B} m f p q = record { at = λ t h. go (m t) t (p.at t h) }
    where
      go :
          (r : Option A × Tables) (t : Tables)
          → Advances I t r.1
          → Advances I t
              (elim r.0 as (λ _. Option B × Tables) [ none ↦ (none, r.1) | some a ↦ f a r.1 ]).1
      go (none, t') t h = h
      go (some a, t') t h = Advances-trans h ((q a).at t' h.kept)

-- I does not depend on how far the sequences are, as long as they do not go back.
pub record RollsBack (I : Tables → Type 0) : Type 0 where
  pub rolls :
      (t t' : Tables)
      → I t
      → t.room_seq ≤ t'.room_seq
      → t.message_seq ≤ t'.message_seq
      → I (roll_back t t')

module _ {I : Tables → Type 0} (rolls_back : RollsBack I) {A : Type 0} where
  finish-kept :
      (o : Outcome) (t : Tables) (r : Option (Expected A) × Tables)
      → I t
      → Advances I t r.1
      → I (finish o t r).1
  unfolding finish
  finish-kept o t (none, t') h a = rolls_back.rolls t t' h a.room_seq a.message_seq
  finish-kept commits t (some r, t') h a = a.kept
  finish-kept (fails_at_once ex) t (some r, t') h a = h
  finish-kept (fails_to_commit ex) t (some r, t') h a =
      rolls_back.rolls t t' h a.room_seq a.message_seq
  finish-kept (commits_unheard ex) t (some r, t') h a = a.kept

  transact-kept :
      (o : Outcome) (body : Sql (Expected A)) (t : Tables)
      → Maintains I body
      → I t
      → I (transact o body t).1
  unfolding transact
  transact-kept commits body t m h = finish-kept commits t (body t) h (m.at t h)
  transact-kept (fails_at_once ex) body t m h = h
  transact-kept (fails_to_commit ex) body t m h =
      finish-kept (fails_to_commit ex) t (body t) h (m.at t h)
  transact-kept (commits_unheard ex) body t m h =
      finish-kept (commits_unheard ex) t (body t) h (m.at t h)

  pub run-kept :
      (server : Server) (body : Sql (Expected A)) (db : Database)
      → Maintains I body
      → I db.tables
      → I (run server body db).1.tables
  unfolding run
  run-kept server body db m h = transact-kept (server.outcome db.transactions) body db.tables m h
