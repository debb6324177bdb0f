-- ===== src/Acceptor/Accepted.antt =====
-- Which connections are accepted, and where their sessions run.
use fighting_card.Base.{
  ℕ, suc, ◌+◌, ◌%◌, ◌^◌, ◌≡◌, ◌<◌, ◌∙◌, refl, ap, Bool, true, false, Option, none, some, List, [],
  ◌∷◌, ◌++◌, arith, length, Option-cases, inl, inr, append-nil, append_assoc, ◌>>=◌,
}
use fighting_card.IoServicePool.{Pool}
use fighting_card.IoServicePool.Turns.{at_turn, get_io_service-next}
use fighting_card.Server.{Task, adds}
use fighting_card.Acceptor.{GameServer, do_accept, handle_accept, on_accept, accept_all}

idle-accepts_none :
    (g : GameServer) (es : List (Bool × ℕ)) → g.accepting ≡ none → accept_all g es ≡ some g
unfolding accept_all on_accept
idle-accepts_none g [] idle = refl
idle-accepts_none g (e ∷ es) idle =
    ap (λ a. handle_accept g e.0 e.1 a >>= λ next. accept_all next es) idle
    ∙ idle-accepts_none g es idle

-- After an accept that fails no connection is accepted any more.
pub accept_error_ends :
    (g : GameServer) (session : ℕ) (es : List (Bool × ℕ))
    → (last : GameServer) × (accept_all g ((true, session) ∷ es) ≡ some last)
      × (last.sessions ≡ g.sessions)
      × (last.posted ≡ g.posted)
unfolding accept_all on_accept
accept_error_ends g session es = elim (Option-cases g.accepting) [
  | inl idle ↦ (
    g,
    ap (λ a. handle_accept g true session a >>= λ next. accept_all next es) idle
        ∙ idle-accepts_none g es idle,
    refl,
    refl,
  )
  | inr (service, pending) ↦ (
    record g { accepting = none },
    ap (λ a. handle_accept g true session a >>= λ next. accept_all next es) pending
        ∙ idle-accepts_none (record g { accepting = none }) es refl,
    refl,
    refl,
  )
]

abbrev pub connected : List ℕ → List (Bool × ℕ)
connected [] = []
connected (p ∷ ps) = (false, p) ∷ connected ps

-- The sessions on the services from the `k`-th on, in turn.
abbrev pub in_turn : ℕ → ℕ → List ℕ → List (ℕ × ℕ)
in_turn size k [] = []
in_turn size k (p ∷ ps) = (p, k % size) ∷ in_turn size (suc k) ps

abbrev pub added : List ℕ → List Task
added [] = []
added (p ∷ ps) = adds p ∷ added ps

module _ (p : Pool) (pos : 0 < p.io_services) where
  waiting : ℕ → List (ℕ × ℕ) → List Task → GameServer
  waiting k sessions posted = record {
    pool = at_turn (suc k) p;
    accepting = some (k % p.io_services);
    sessions = sessions;
    posted = posted;
  }

  do_accept-waiting :
      (k : ℕ) (accepting : Option ℕ) (sessions : List (ℕ × ℕ)) (posted : List Task)
      → suc k < 2 ^ 64
      → do_accept (record {
        pool = at_turn k p;
        accepting = accepting;
        sessions = sessions;
        posted = posted;
      })
        ≡ some (waiting k sessions posted)
  unfolding do_accept waiting
  do_accept-waiting k accepting sessions posted small = rw (get_io_service-next k p pos small) refl

  on_accept-waiting :
      (k s : ℕ) (sessions : List (ℕ × ℕ)) (posted : List Task)
      → suc (suc k) < 2 ^ 64
      → on_accept (waiting k sessions posted) (false, s)
        ≡ some (waiting (suc k) (sessions ++ (s, k % p.io_services) ∷ []) (posted ++ adds s ∷ []))
  unfolding on_accept
  on_accept-waiting k s sessions posted small =
      unfold waiting in
      do_accept-waiting (suc k) (some (k % p.io_services)) (sessions ++ (s, k % p.io_services) ∷ [])
        (posted ++ adds s ∷ []) small

  accept_all-waiting :
      (k : ℕ) (ps : List ℕ) (sessions : List (ℕ × ℕ)) (posted : List Task)
      → suc k + length ps < 2 ^ 64
      → accept_all (waiting k sessions posted) (connected ps)
        ≡ some
            (waiting (k + length ps) (sessions ++ in_turn p.io_services k ps) (posted ++ added ps))
  unfolding accept_all on_accept
  accept_all-waiting k [] sessions posted small =
      rw (append-nil sessions, append-nil posted, end) refl
    where
      end : k + 0 ≡ k
      end = omega arith
  accept_all-waiting k (s ∷ ps) sessions posted small =
      ap (λ r. r >>= λ next. accept_all next (connected ps))
        (on_accept-waiting k s sessions posted (omega (arith, small)))
      ∙ accept_all-waiting (suc k) ps (sessions ++ (s, k % p.io_services) ∷ [])
          (posted ++ adds s ∷ []) (omega (arith, small))
      ∙ rw
          (
            end,
            append_assoc sessions ((s, k % p.io_services) ∷ []) (in_turn p.io_services (suc k) ps),
            append_assoc posted (adds s ∷ []) (added ps),
          )
          refl
    where
      end : suc k + length ps ≡ k + suc (length ps)
      end = omega arith

-- From `Accept` on, with no accept that fails, every connection gets a session: the sessions run
-- on the services in turn, and `AddSession` is posted for them in the order of the connections.
pub accept_all-in_turn :
    (p : Pool) (ps : List ℕ)
    → 0 < p.io_services
    → p.next_io_service ≡ 0
    → 1 + length ps < 2 ^ 64
    → (first last : GameServer) × (do_accept
          (record { pool = p; accepting = none; sessions = []; posted = [] })
        ≡ some first)
      × (accept_all first (connected ps) ≡ some last)
      × (last.sessions ≡ in_turn p.io_services 0 ps)
      × (last.posted ≡ added ps)
unfolding waiting
accept_all-in_turn p ps pos at small = (
  waiting p pos 0 [] [],
  waiting p pos (0 + length ps) ([] ++ in_turn p.io_services 0 ps) ([] ++ added ps),
  rw at (do_accept-waiting p pos 0 none [] [] (omega arith)),
  accept_all-waiting p pos 0 ps [] [] small,
  refl,
  refl,
)
