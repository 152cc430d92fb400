-- ===== src/Database/Engine.antt =====
-- One engine in a process whose uses of the database come one after another.
use ketabdan_ms.Prelude.{
  ℕ, String, ◌≡◌, refl, sym, ap, ◌∙◌, ◌⊎◌, inl, inr, Bool, Option, none, some, List, [], ◌∷◌, arith,
  Option-cases, nat_eq, string_eq, Result, ok, err,
}
use mathlib.Core.Path.{subst}
use ketabdan_ms.Config.{Settings}
use ketabdan_ms.Database.{
  Driver, EngineError, made_engine, create_for, cached_engine, cached_factory, bound_factory, Call,
  in_session, close_after, main_exit, ping, not_configured, raised, Connections, new_process,
  configured_url, get_engine, get_session_factory, get_db, main, check_database,
}

-- What a process does with the database: a request's handler in its session, and the two checks.
pub data Use : Type 0 where
  request : (ℕ → Result String ℕ) → Use
  check : Use
  health : Bool → Use

abbrev pub perform : Driver → Settings → Use → Connections → Connections
perform d s (request handler) c = (get_db d s handler c).1
perform d s check c = (main d s c).1
perform d s (health in_time) c = (check_database d s in_time c).1

abbrev pub perform_all : Driver → Settings → List Use → Connections → Connections
perform_all d s [] c = c
perform_all d s (u ∷ us) c = perform_all d s us (perform d s u c)

-- Nothing is made yet, or one engine is, which is cached and which the factory is bound to.
pub data OneEngine (c : Connections) : Type 0 where
  none_yet : c.engine ≡ none → c.session_factory ≡ none → c.created ≡ [] → OneEngine c
  one :
      (e : ℕ)
      → c.engine ≡ some e
      → (c.session_factory ≡ none) ⊎ (c.session_factory ≡ some e)
      → c.created ≡ e ∷ []
      → OneEngine c

-- How a call of `get_engine` ends.
pub data Engines (c : Connections) (r : Result EngineError ℕ × Connections) : Type 0 where
  cached : (e : ℕ) → c.engine ≡ some e → r ≡ (ok e, c) → Engines c r
  made :
      (e : ℕ)
      → c.engine ≡ none
      → r ≡ (ok e, record c { engine = some e; created = e ∷ c.created })
      → Engines c r
  failed : (x : EngineError) → c.engine ≡ none → r ≡ (err x, c) → Engines c r

module _ (d : Driver) (s : Settings) where
  created-Engines :
      (c : Connections) (a : Result String ℕ) → c.engine ≡ none → Engines c (made_engine d s c a)
  created-Engines c (ok e) h = made e h refl
  created-Engines c (err x) h = failed (raised x) h refl

  create_for-Engines :
      (c : Connections) (url : Option String) → c.engine ≡ none → Engines c (create_for d s c url)
  create_for-Engines c none h = failed not_configured h refl
  create_for-Engines c (some url) h = created-Engines c (d.create_engine url) h

  pub get_engine-Engines : (c : Connections) → Engines c (get_engine d s c)
  unfolding get_engine
  get_engine-Engines c = elim (Option-cases c.engine) [
    | inl e ↦
        subst (λ o. Engines c (cached_engine d s c o)) (sym e)
          (create_for-Engines c (configured_url s.database_url) e)
    | inr (n, e) ↦ cached n e (ap (cached_engine d s c) e)
  ]

  -- What a use of the database leaves: one engine at most, and the sessions that were open.
  pub record Tidy (c c' : Connections) : Type 0 where
    pub engine_made : OneEngine c → OneEngine c'
    pub sessions_closed : c'.sessions ≡ c.sessions

  Tidy-trans : (c c' c'' : Connections) → Tidy c c' → Tidy c' c'' → Tidy c c''
  Tidy-trans c c' c'' t t' = record {
    engine_made = λ v. t'.engine_made (t.engine_made v);
    sessions_closed = t'.sessions_closed ∙ t.sessions_closed;
  }

  Engines-Tidy :
      (c : Connections) (r : Result EngineError ℕ × Connections) → Engines c r → Tidy c r.1
  Engines-Tidy c r (cached e h h') = record {
    engine_made = λ v. subst OneEngine (ground arith) v;
    sessions_closed = ground arith;
  }
  Engines-Tidy c r (failed x h h') = record {
    engine_made = λ v. subst OneEngine (ground arith) v;
    sessions_closed = ground arith;
  }
  Engines-Tidy c r (made e h h') = record {
    engine_made = λ v. elim v [
      | none_yet a b m ↦ one e (ground arith) (inl (ground arith)) (ground arith)
      | one x a b m ↦ absurd (ground arith)
    ];
    sessions_closed = ground arith;
  }

  bound-Tidy :
      (c : Connections) (r : Result EngineError ℕ × Connections)
      → Engines c r
      → Tidy c (bound_factory d s r).1
  bound-Tidy c r (cached e h h') =
      subst (λ x. Tidy c (bound_factory d s x).1) (sym h')
        (record {
          engine_made = λ v. elim v [
            | none_yet a b m ↦ absurd (ground arith)
            | one x a b m ↦ one e h (inr refl) (ground arith)
          ];
          sessions_closed = refl;
        })
  bound-Tidy c r (made e h h') =
      subst (λ x. Tidy c (bound_factory d s x).1) (sym h')
        (record {
          engine_made = λ v. elim v [
            | none_yet a b m ↦ one e refl (inr refl) (ground arith)
            | one x a b m ↦ absurd (ground arith)
          ];
          sessions_closed = refl;
        })
  bound-Tidy c r (failed x h h') =
      subst (λ x. Tidy c (bound_factory d s x).1) (sym h')
        (record { engine_made = λ v. v; sessions_closed = refl })

  kept-Tidy : (c : Connections) → Tidy c c
  kept-Tidy c = record { engine_made = λ v. v; sessions_closed = refl }

  factory-Tidy : (c : Connections) → Tidy c (get_session_factory d s c).1
  unfolding get_session_factory
  factory-Tidy c = elim (Option-cases c.session_factory) [
    | inl e ↦
        subst (λ o. Tidy c (cached_factory d s c o).1) (sym e)
          (bound-Tidy c (get_engine d s c) (get_engine-Engines c))
    | inr (n, e) ↦ subst (λ o. Tidy c (cached_factory d s c o).1) (sym e) (kept-Tidy c)
  ]

  close_after-Tidy :
      (c c' : Connections) (f : ℕ) (a : Result String ℕ)
      → Tidy c c'
      → Tidy c (close_after d s (record c' { sessions = f ∷ c'.sessions }) a).1
  close_after-Tidy c c' f (ok a) t = t
  close_after-Tidy c c' f (err name) t = t

  session-Tidy :
      (handler : ℕ → Result String ℕ) (c : Connections) (r : Call ℕ)
      → Tidy c r.1
      → Tidy c (in_session d s handler r).1
  session-Tidy handler c (err x, c') t = t
  session-Tidy handler c (ok f, c') t = close_after-Tidy c c' f (handler f) t

  main_exit-Tidy : (c : Connections) (r : Call ℕ) → Tidy c r.1 → Tidy c (main_exit d s r).1
  main_exit-Tidy c (ok e, c') t = t
  main_exit-Tidy c (err x, c') t = t

  ping-Tidy : (c : Connections) (r : Call ℕ) → Tidy c r.1 → Tidy c (ping d s r).1
  ping-Tidy c (ok e, c') t = t
  ping-Tidy c (err x, c') t = t

  perform-Tidy : (u : Use) (c : Connections) → Tidy c (perform d s u c)
  unfolding get_db main check_database
  perform-Tidy (request handler) c =
      session-Tidy handler c (get_session_factory d s c) (factory-Tidy c)
  perform-Tidy check c =
      main_exit-Tidy c (get_engine d s c) (Engines-Tidy c (get_engine d s c) (get_engine-Engines c))
  perform-Tidy (health in_time) c =
      ping-Tidy c (get_engine d s c) (Engines-Tidy c (get_engine d s c) (get_engine-Engines c))

  perform_all-Tidy : (us : List Use) (c : Connections) → Tidy c (perform_all d s us c)
  perform_all-Tidy [] c = kept-Tidy c
  perform_all-Tidy (u ∷ us) c =
      Tidy-trans c (perform d s u c) (perform_all d s us (perform d s u c)) (perform-Tidy u c)
        (perform_all-Tidy us (perform d s u c))

  -- After any uses of the database, one after another, requests that fail included, in any order and
  -- number: the process has made one engine at most, which is the cached one and that of the session
  -- factory, and no session is open. Uses that overlap are not covered.
  pub perform_all-OneEngine :
      (uses : List Use)
      → OneEngine (perform_all d s uses new_process)
        × ((perform_all d s uses new_process).sessions ≡ [])
  perform_all-OneEngine uses =
      let t = perform_all-Tidy uses new_process in
      (t.engine_made (none_yet refl refl refl), t.sessions_closed)
