-- ===== src/Server/Handled.antt =====
-- What a handler of one connection may change, and the handlers that close it.
use socket_prac.Prelude.{
  suc, ℤ, ◌≡◌, refl, sym, ap, ◌∙◌, inl, inr, Bool, true, false, not, ◌&&◌, List, [], ◌∷◌, ◌++◌,
  append-nil, append_assoc, if◌then◌else◌, Bool-cases,
}
use socket_prac.Reactor.Registry.State.{Request, unregister_command}
use socket_prac.Reactor.Registry.Armed.{IsArmed}
use socket_prac.Server.Connection.{
  Conn, request_unregister, handle_disconnect, handle_close, handle_client_error,
}

-- The request that comes with the closing of an open connection.
abbrev pub closing : ℤ → Bool → Bool → List Request
closing fd true b = []
closing fd false false = []
closing fd false true = unregister_command fd ∷ []

-- A handler keeps who the connection is, keeps its output armed, and asks for its removal exactly
-- when it closes it.
pub record Handled (c c' : Conn) : Type 0 where
  pub ufd : c'.si.ufd ≡ c.si.ufd
  pub user_id : c'.si.user_id ≡ c.si.user_id
  pub joined : c'.si.joined_room_ids ≡ c.si.joined_room_ids
  pub armed : IsArmed c.si → IsArmed c'.si
  pub stays : c.si.is_closed ≡ true → c'.si.is_closed ≡ true
  pub requested : c'.requests ≡ c.requests ++ closing c.si.ufd c.si.is_closed c'.si.is_closed

closing_same : (fd : ℤ) (b : Bool) → closing fd b b ≡ []
closing_same fd true = refl
closing_same fd false = refl

closing_trans :
    (fd : ℤ) (a b c : Bool)
    → (a ≡ true → b ≡ true)
    → (b ≡ true → c ≡ true)
    → closing fd a b ++ closing fd b c ≡ closing fd a c
closing_trans fd true b c p q = rw (p refl) refl
closing_trans fd false true c p q = rw (q refl) refl
closing_trans fd false false c p q = refl

pub Handled-trans : {a b c : Conn} → Handled a b → Handled b c → Handled a c
Handled-trans {a} {b} {c} p q = record {
  ufd = q.ufd ∙ p.ufd;
  user_id = q.user_id ∙ p.user_id;
  joined = q.joined ∙ p.joined;
  armed = λ v. q.armed (p.armed v);
  stays = λ h. q.stays (p.stays h);
  requested =
      q.requested
      ∙ ap (λ fd. b.requests ++ closing fd b.si.is_closed c.si.is_closed) p.ufd
      ∙ ap (λ rs. rs ++ closing a.si.ufd b.si.is_closed c.si.is_closed) p.requested
      ∙ append_assoc a.requests (closing a.si.ufd a.si.is_closed b.si.is_closed) _
      ∙ ap (λ rs. a.requests ++ rs)
          (closing_trans a.si.ufd a.si.is_closed b.si.is_closed c.si.is_closed p.stays q.stays);
}

-- A change of the session, the buffers, the events or the count of calls.
pub update-Handled :
    (c c' : Conn)
    → c'.si.ufd ≡ c.si.ufd
    → c'.si.user_id ≡ c.si.user_id
    → c'.si.joined_room_ids ≡ c.si.joined_room_ids
    → c'.si.is_closed ≡ c.si.is_closed
    → c'.requests ≡ c.requests
    → (IsArmed c.si → IsArmed c'.si)
    → Handled c c'
update-Handled c c' ufd user_id joined closed requests armed = record {
  ufd = ufd;
  user_id = user_id;
  joined = joined;
  armed = armed;
  stays = λ h. closed ∙ h;
  requested =
      requests
      ∙ sym (append-nil c.requests)
      ∙ ap (λ rs. c.requests ++ rs)
          (sym
            (ap (closing c.si.ufd c.si.is_closed) closed ∙ closing_same c.si.ufd c.si.is_closed));
}

pub Handled-refl : (c : Conn) → Handled c c
Handled-refl c = update-Handled c c refl refl refl refl refl (λ a. a)

pub handle_disconnect-Handled : (c : Conn) → Handled c (handle_disconnect c)
unfolding handle_disconnect request_unregister
handle_disconnect-Handled c = elim (Bool-cases c.si.is_closed) [
  | inl closed ↦ simp closed (Handled-refl c)
  | inr open_ ↦ simp open_ (record {
    ufd = refl;
    user_id = refl;
    joined = refl;
    armed = λ a. record { asks = a.asks };
    stays = λ h. refl;
    requested = ap (λ b. c.requests ++ closing c.si.ufd b true) (sym open_);
  })
]

pub handle_close-Handled : (c : Conn) → Handled c (handle_close c)
unfolding handle_close
handle_close-Handled c = go c.si.is_closed
  where
    later : Conn
    later = record c {
      calls = if c.si.tls.handshake_done && not c.si.tls.peer_closed then suc c.calls else c.calls;
    }

    go : (b : Bool) → Handled c (if b then c else handle_disconnect later)
    go true = Handled-refl c
    go false =
        Handled-trans
          (update-Handled c later refl refl refl refl refl (λ a. record { asks = a.asks }))
          (handle_disconnect-Handled later)

pub handle_client_error-Handled : (c : Conn) → Handled c (handle_client_error c)
unfolding handle_client_error
handle_client_error-Handled c = go c.si.is_closed
  where
    later : Conn
    later = record c { calls = if c.si.tls.handshake_done then suc c.calls else c.calls }

    go : (b : Bool) → Handled c (if b then c else handle_disconnect later)
    go true = Handled-refl c
    go false =
        Handled-trans
          (update-Handled c later refl refl refl refl refl (λ a. record { asks = a.asks }))
          (handle_disconnect-Handled later)
