-- ===== src/Database/Overlap.antt =====
-- Calls of `get_engine` in several threads. `lru_cache` runs the function of a call that misses without a
-- lock, and keeps the value of the first call that ends.
use ketabdan_ms.Prelude.{
  ℕ, suc, ◌+◌, ◌≤◌, String, ◌≡◌, sym, ap, Option, none, some, arith, length, nat_eq, string_eq,
  Result, ok, err,
}
use mathlib.Core.Path.{subst}
use ketabdan_ms.Config.{Settings}
use ketabdan_ms.Database.{Driver, Connections, made_engine, create_for, configured_url}

-- The process, and the number of calls that missed and have not ended
pub record Threads : Type 0 where
  pub connections : Connections
  pub running : ℕ

abbrev pub look_up : Threads → Option ℕ → Threads
look_up t (some e) = t
look_up t none = record t { running = suc t.running }

-- A call begins: it returns the cached engine, or it runs the function.
unfoldable pub begin_call : Threads → Threads
begin_call t = look_up t t.connections.engine

abbrev pub first_kept : Option ℕ → Option ℕ → Option ℕ
first_kept (some e) later = some e
first_kept none later = later

-- One of the running calls ends, with an engine of its own or an exception.
unfoldable pub end_call : Driver → Settings → ℕ → Threads → Threads
end_call d s others t =
    let (result, c) = create_for d s t.connections (configured_url s.database_url) in
    record {
      connections = record c { engine = first_kept t.connections.engine c.engine };
      running = others;
    }

-- What is reached from a state by any interleaving of calls
pub data Interleaved (s : Settings) (start : Threads) : Threads → Type 0 where
  here : Interleaved s start start
  begun :
      {t : Threads} (t' : Threads)
      → Interleaved s start t
      → t' ≡ begin_call t
      → Interleaved s start t'
  ended :
      {t : Threads} (d : Driver) (others : ℕ) (t' : Threads)
      → Interleaved s start t
      → t.running ≡ suc others
      → t' ≡ end_call d s others t
      → Interleaved s start t'

-- The engine is cached, and no more than so many engines are made or may still be.
abbrev pub Settled : ℕ → ℕ → Threads → Type 0
Settled e bound t =
    (t.connections.engine ≡ some e) × (length t.connections.created + t.running ≤ bound)

module _ (s : Settings) where
  made-created :
      (d : Driver) (c : Connections) (x : Result String ℕ)
      → length (made_engine d s c x).1.created ≤ suc (length c.created)
  made-created d c (ok e) = omega arith
  made-created d c (err name) = omega arith

  create_for-created :
      (d : Driver) (c : Connections) (url : Option String)
      → length (create_for d s c url).1.created ≤ suc (length c.created)
  create_for-created d c none = omega arith
  create_for-created d c (some url) = made-created d c (d.create_engine url)

  end_call-Settled :
      (d : Driver) (e bound others : ℕ) (t : Threads)
      → t.running ≡ suc others
      → Settled e bound t
      → Settled e bound (end_call d s others t)
  unfolding end_call
  end_call-Settled d e bound others t r (cached, few) =
      let more = create_for-created d t.connections (configured_url s.database_url) in
      (
        ap
            (λ o.
              first_kept o (create_for d s t.connections (configured_url s.database_url)).1.engine)
            cached,
        omega (arith, more, few, r),
      )

  begin_call-Settled :
      (e bound : ℕ) (t : Threads) → Settled e bound t → Settled e bound (begin_call t)
  unfolding begin_call
  begin_call-Settled e bound t (cached, few) =
      let same : begin_call t ≡ t = ap (look_up t) cached in
      subst (Settled e bound) (sym same) (cached, few)

  -- Once an engine is cached, it stays the cached one, however calls in several threads interleave, and
  -- the engines that were made and the calls that may still make one are together never more than they
  -- were then: a call that begins later makes none.
  pub cached-Settled :
      (from to : Threads) (e : ℕ)
      → from.connections.engine ≡ some e
      → Interleaved s from to
      → Settled e (length from.connections.created + from.running) to
  cached-Settled from to e h here = (h, omega arith)
  cached-Settled from to e h (begun {t} t' steps same) =
      subst (Settled e (length from.connections.created + from.running)) (sym same)
        (begin_call-Settled e _ t (cached-Settled from t e h steps))
  cached-Settled from to e h (ended {t} d others t' steps r same) =
      subst (Settled e (length from.connections.created + from.running)) (sym same)
        (end_call-Settled d e _ others t r (cached-Settled from t e h steps))
