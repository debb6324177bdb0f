-- ===== src/GameProcess/Starting.antt =====
-- The states of the start: before and after the logic thread has called what `main` posts to it.
use fighting_card.Base.{
  ℕ, ◌≡◌, ◌⊎◌, refl, sym, ◌∙◌, ap, Bool, true, Option, none, some, List, [], ◌∷◌, ◌++◌, inl, inr,
  Holds, Holds-if, Holds-then, Holds-weaken,
}
use mathlib.Core.Path.{subst}
use fighting_card.Config.{ServerConfig}
use fighting_card.Dispatch.{no_handlers}
use fighting_card.Server.{LoginReq}
use fighting_card.Server.Session.Requests.{ready}
use fighting_card.Threads
use fighting_card.Threads.{LogicIo, post, take_handler, next_handler, new_logic_io}
use fighting_card.GameProcess.{init_timers, World, Job, start_up, main_next}
use fighting_card.GameProcess.Kept.{tables, thrown}
use fighting_card.GameProcess.Main.{Same, main_next-Same}
use fighting_card.GameProcess.Points.{
  Point, at_pool, at_logic, at_post, at_accept, at_master, at_join, rest_of,
}

-- `main` has not posted the start of the logic thread.
abbrev pub ComesBefore : Point → Type 0
ComesBefore at_pool = Unit
ComesBefore at_logic = Unit
ComesBefore at_post = Unit
ComesBefore at_accept = ⊥
ComesBefore at_master = ⊥
ComesBefore at_join = ⊥

module _ {P : Type 0} (c : ServerConfig) where
  -- There is no session, and nothing waits; `main` may have thrown.
  pub record IsUnposted (w : World P) : Type 0 where
    pub point : (w.main ≡ []) ⊎ ((p : Point) × ComesBefore p × (w.main ≡ rest_of c p))
    pub no_handler : w.logic.io_service.handlers ≡ []
    pub no_session : w.gate.sessions ≡ []
    pub no_accept : w.gate.accepting ≡ none

  -- The start of the logic thread is the first handler that it will call.
  abbrev pub IsFirst : World P → Type 0
  IsFirst w = (ts : List Job) × (w.logic.io_service.handlers ≡ start_up ∷ ts)

  -- No message has a handler, and nobody is logged in.
  pub record IsEarly (w : World P) : Type 0 where
    pub nothing_registered : w.processor ≡ no_handlers
    pub nobody : tables w.server ≡ ([], [])
    pub ahead : IsUnposted w ⊎ IsFirst w

module _ {P : Type 0} (login_of : P → Option LoginReq) (ping_of : P → Bool) where
  -- All handlers are registered, and the timer runs.
  pub record IsUp (w : World P) : Type 0 where
    pub registered : w.processor ≡ ready login_of ping_of
    pub timed : (since : ℕ) × (w.timers ≡ init_timers since)

  module _ (c : ServerConfig) where
    abbrev pub IsStarting : World P → Type 0
    IsStarting w = IsEarly c w ⊎ IsUp w

    up-main : (w : World P) → IsUp w → Holds (main_next w w.main) IsStarting
    up-main w v =
        Holds-weaken (main_next w w.main) (Same w) IsStarting (main_next-Same w w.main) (λ u e.
          inr (record {
            registered = e.same_processor ∙ v.registered;
            timed = (v.timed.0, e.same_timers ∙ v.timed.1);
          }))

    first-main :
        (w : World P)
        → w.processor ≡ no_handlers
        → tables w.server ≡ ([], [])
        → IsFirst c w
        → Holds (main_next w w.main) IsStarting
    first-main w reg nob (ts, e) =
        Holds-weaken (main_next w w.main) (Same w) IsStarting (main_next-Same w w.main) (λ u s.
          inl (record {
            nothing_registered = s.same_processor ∙ reg;
            nobody = s.same_tables ∙ nob;
            ahead = inr (ts ++ s.appended.0, s.appended.1 ∙ ap (λ hs. hs ++ s.appended.0) e);
          }))

    unposted-main :
        (w : World P)
        → w.processor ≡ no_handlers
        → tables w.server ≡ ([], [])
        → IsUnposted c w
        → (p : Point) → ComesBefore p
        → Holds (main_next w (rest_of c p)) IsStarting
    unfolding post Threads.init
    unposted-main w reg nob v at_pool before = inl (record {
      nothing_registered = reg;
      nobody = nob;
      ahead = inl (record {
        point = inr (at_logic, tt, refl);
        no_handler = v.no_handler;
        no_session = v.no_session;
        no_accept = v.no_accept;
      });
    })
    unposted-main w reg nob v at_logic before =
        Holds-then (Threads.init w.logic)
          (λ logic. some (record w { main = rest_of c at_post; logic = logic }))
          (λ logic. logic.io_service ≡ w.logic.io_service) IsStarting
          (Holds-if w.logic.thread none (some (record w.logic { thread = true }))
            (λ logic. logic.io_service ≡ w.logic.io_service) (λ e. tt) (λ e. refl))
          (λ logic e. inl (record {
            nothing_registered = reg;
            nobody = nob;
            ahead = inl (record {
              point = inr (at_post, tt, refl);
              no_handler = ap (λ i. i.handlers) e ∙ v.no_handler;
              no_session = v.no_session;
              no_accept = v.no_accept;
            });
          }))
    unposted-main w reg nob v at_post before = inl (record {
      nothing_registered = reg;
      nobody = nob;
      ahead = inr ([], ap (λ hs. hs ++ start_up ∷ []) v.no_handler);
    })
    unposted-main w reg nob v at_accept before = absurd before
    unposted-main w reg nob v at_master before = absurd before
    unposted-main w reg nob v at_join before = absurd before

    early-main : (w : World P) → IsEarly c w → Holds (main_next w w.main) IsStarting
    early-main w v = elim v.ahead [
      | inl u ↦ elim u.point [
        | inl over ↦ subst (λ s. Holds (main_next w s) IsStarting) (sym over) (inl v)
        | inr (p, before, e) ↦
            subst (λ s. Holds (main_next w s) IsStarting) (sym e)
              (unposted-main w v.nothing_registered v.nobody u p before)
      ]
      | inr first ↦ first-main w v.nothing_registered v.nobody first
    ]

    pub kept-main : (w : World P) → IsStarting w → Holds (main_next w w.main) IsStarting
    kept-main w (inl v) = early-main w v
    kept-main w (inr v) = up-main w v

    pub kept-thrown : (w : World P) → IsStarting w → IsStarting (thrown w)
    kept-thrown w (inr v) = inr (record { registered = v.registered; timed = v.timed })
    kept-thrown w (inl v) = inl (record {
      nothing_registered = v.nothing_registered;
      nobody = v.nobody;
      ahead = elim v.ahead [
        | inl u ↦ inl (record {
          point = inl refl;
          no_handler = u.no_handler;
          no_session = u.no_session;
          no_accept = u.no_accept;
        })
        | inr first ↦ inr first
      ];
    })
