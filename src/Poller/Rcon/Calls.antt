-- ===== src/Poller/Rcon/Calls.antt =====
-- The connections that an RCon session's calls leave open: rcon.go.
use metricz_exporter.Base.{
  ℕ, ◌≡◌, refl, subst, ◌≟◌, ite, nat_key, Bool, true, false, String, Option, Option-cases, none,
  some, List, [], ◌∷◌, inl, inr, arith,
}
use metricz_exporter.Config.{RconConfig}
use metricz_exporter.Poller.Rcon.{
  Call, opened, not_opened, set_keepalive, set_deadline, set_buffer_size, set_login_attempts,
  start_keep_alive, sent, closed, RconSession, close_internal, set_up,
}

unfoldable pub remove : ℕ → List ℕ → List ℕ
remove c [] = []
remove c (d ∷ ds) = let rest = remove c ds in ite (d ≟ c) rest (d ∷ rest)

-- The connections that were opened and not closed since.
unfoldable pub unclosed : List Call → List ℕ
unfolding remove
unclosed [] = []
unclosed (opened c address password ∷ calls) = c ∷ unclosed calls
unclosed (closed c ∷ calls) = remove c (unclosed calls)
unclosed (_ ∷ calls) = unclosed calls

unfoldable pub contains : ℕ → List ℕ → Bool
contains c [] = false
contains c (d ∷ ds) = ite (d ≟ c) true (contains c ds)

-- The connection that a call needs.
unfoldable pub needs : Call → Option ℕ
needs (opened c address password) = none
needs (not_opened address password) = none
needs (set_keepalive c d) = some c
needs (set_deadline c d) = some c
needs (set_buffer_size c n) = some c
needs (set_login_attempts c n) = some c
needs (start_keep_alive c) = some c
needs (sent c command) = some c
needs (closed c) = some c

abbrev pub IsServed : Option ℕ → List Call → Type 0
IsServed none calls = Unit
IsServed (some c) calls = contains c (unclosed calls) ≡ true

-- Every call is made on a connection that is open then.
unfoldable pub IsOrderly : List Call → Type 0
unfolding needs unclosed contains
IsOrderly [] = Unit
IsOrderly (call ∷ calls) = IsServed (needs call) calls × IsOrderly calls

abbrev pub held : Option ℕ → List ℕ
held none = []
held (some c) = c ∷ []

-- The open connections are the given ones, and no call was made on one that was not open.
pub record Balanced (ids : List ℕ) (calls : List Call) : Type 0 where
  pub kept : unclosed calls ≡ ids
  pub orderly : IsOrderly calls

-- The session holds every connection that is open.
abbrev pub IsTidy : RconSession → Type 0
IsTidy s = Balanced (held s.conn) s.calls

remove_self : (c : ℕ) → remove c (c ∷ []) ≡ []
unfolding remove
remove_self c = ground arith

contains_self : (c : ℕ) → contains c (c ∷ []) ≡ true
unfolding contains
contains_self c = ground arith

module _ (c : ℕ) (calls : List Call) (b : Balanced (c ∷ []) calls) where
  serves : contains c (unclosed calls) ≡ true
  serves = rw b.kept (contains_self c)

  closed-Balanced : Balanced [] (closed c ∷ calls)
  unfolding unclosed IsOrderly
  closed-Balanced = record { kept = rw b.kept (remove_self c); orderly = (serves, b.orderly) }

  pub sent-Balanced : (command : String) → Balanced (c ∷ []) (sent c command ∷ calls)
  unfolding unclosed IsOrderly
  sent-Balanced command = record { kept = b.kept; orderly = (serves, b.orderly) }

pub set_up-Balanced :
    (cfg : RconConfig) (c : ℕ) (calls : List Call)
    → Balanced [] calls
    → Balanced (c ∷ []) (set_up cfg c calls)
unfolding set_up unclosed IsOrderly
set_up-Balanced cfg c calls b =
    let is_open : contains c (c ∷ unclosed calls) ≡ true = rw b.kept (contains_self c) in
    record {
      kept = rw b.kept refl;
      orderly = (is_open, (is_open, (is_open, (is_open, (is_open, (tt, b.orderly))))));
    }

pub close_internal-Balanced :
    (s : RconSession)
    → IsTidy s
    → Balanced [] (close_internal s).calls × ((close_internal s).conn ≡ none)
unfolding close_internal
close_internal-Balanced s b = elim (Option-cases s.conn) [
  | inl h ↦ rw (h, close_internal) (subst (λ o. Balanced (held o) s.calls) h b, h)
  | inr (c, h) ↦
      rw (h, close_internal)
        (closed-Balanced c s.calls (subst (λ o. Balanced (held o) s.calls) h b), refl)
]
