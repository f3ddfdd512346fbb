-- ===== src/Bridge/Observed/Paced/Steps.antt =====
-- What the answer to a battery query adds to the messages.
use uniubi_ros.Prelude.{
  ℕ, suc, ◌+◌, ◌≤◌, Bool, true, false, Option, none, some, length, ◌≡◌, ◌⊎◌, inl, inr, refl, ap,
  ◌∙◌, arith, is_some, if◌then◌else◌,
}
use uniubi_ros.Json.{Json, Parsed, value, malformed, fault}
use uniubi_ros.Client.{Client, Env, Exit, returned, threw, Response}
use uniubi_ros.Bridge.{Bridge, cancel_battery_status_query, forget_request}
use uniubi_ros.Bridge.Battery.{Floats, BatteryState}
use uniubi_ros.Bridge.Queries.{StatusConfig}
use uniubi_ros.Bridge.BatteryQueries.{
  battery_status_failed, publish_measured, read_system_status, read_battery_response,
  settle_battery_status,
}

-- None more, or one.
abbrev pub Adds : ℕ → ℕ → Type 0
Adds m n = (n ≡ m) ⊎ (n ≡ suc m)

pub Adds-behind : {k m n : ℕ} → m ≡ k → Adds m n → Adds k n
Adds-behind e (inl h) = inl (h ∙ e)
Adds-behind e (inr h) = inr (h ∙ ap suc e)

pub forget_request-time : (o : Option ℕ) (s : Client) → (forget_request o s).time ≡ s.time
forget_request-time none s = refl
forget_request-time (some id) s = refl

module _ {N : Type 0} where
  -- A query for the battery is in flight only where the batteries come from the status, and once the
  -- next message is due.
  abbrev pub IsDue : Bool → Bridge N → Type 0
  IsDue from_status b =
      is_some b.pending_battery_status_query ≡ true
      → (from_status ≡ true) × (b.next_battery_publish_at ≤ b.client.time)

  -- Behind what happens at the time `now`, with a period of `p`: one message more at most, the next in
  -- a period, and no query in flight.
  pub record Done (p now : ℕ) (b t : Bridge N) : Type 0 where
    pub counted : Adds (length b.batteries) (length t.batteries)
    pub next : t.next_battery_publish_at ≡ now + p
    pub time : t.client.time ≡ b.client.time
    pub idle : t.pending_battery_status_query ≡ none

  -- No message, or one that was due.
  pub data Paces (p : ℕ) (s t : Bridge N) : Type 0 where
    quiet :
        length t.batteries ≡ length s.batteries
        → t.next_battery_publish_at ≡ s.next_battery_publish_at
        → s.client.time ≤ t.client.time
        → Paces p s t
    acts :
        (now : ℕ)
        → Adds (length s.batteries) (length t.batteries)
        → s.next_battery_publish_at ≤ now
        → s.client.time ≤ now
        → now ≤ t.client.time
        → t.next_battery_publish_at ≡ now + p
        → Paces p s t

  if-Done :
      {p now : ℕ} {b s t : Bridge N} (c : Bool)
      → Done p now b s
      → Done p now b t
      → Done p now b (if c then s else t)
  if-Done true d e = d
  if-Done false d e = e

  pub Paces-behind :
      {p : ℕ} {b s t : Bridge N}
      → length s.batteries ≡ length b.batteries
      → s.next_battery_publish_at ≡ b.next_battery_publish_at
      → b.client.time ≤ s.client.time
      → Paces p s t
      → Paces p b t
  Paces-behind n e l (quiet m f k) = quiet (omega (arith, n, m)) (f ∙ e) (omega (arith, l, k))
  Paces-behind n e l (acts now counted due after before next) =
      acts now (Adds-behind n counted) (omega (arith, e, due)) (omega (arith, l, after)) before next

  pub Done-Paces :
      {p now : ℕ} {from_status : Bool} {b t : Bridge N}
      → b.next_battery_publish_at ≤ now
      → b.client.time ≡ now
      → Done p now b t
      → Paces p b t × IsDue from_status t
  Done-Paces {now} due e d = (
    acts now d.counted due (omega (arith, e)) (omega (arith, e, d.time)) d.next,
    λ k. absurd (grind (arith, k, d.idle)),
  )

module _ {V N : Type 0} (json : Json V) (floats : Floats V N) (env : Env)
    (config : StatusConfig) where
  abbrev p : ℕ
  p = config.battery_publish_period

  pub failed-Done :
      (now : ℕ) (b : Bridge N) → Done p now b (battery_status_failed json floats env config now b)
  unfolding battery_status_failed cancel_battery_status_query
  failed-Done now b = record {
    counted = inl refl;
    next = refl;
    time = forget_request-time b.pending_battery_status_query b.client;
    idle = refl;
  }

  -- What reading the answer adds, where the next message is already set.
  measured-Done :
      (now : ℕ) (battery : Exit (Option (BatteryState N))) (b : Bridge N)
      → b.next_battery_publish_at ≡ now + p
      → b.pending_battery_status_query ≡ none
      → Done p now b (publish_measured json floats env config now battery b)
  unfolding publish_measured
  measured-Done now (threw what) b e i = failed-Done now b
  measured-Done now (returned none) b e i = failed-Done now b
  measured-Done now (returned (some battery)) b e i = record {
    counted = inr refl;
    next = e;
    time = refl;
    idle = i;
  }

  status-Done :
      (now : ℕ) (parsed : Parsed V) (b : Bridge N)
      → b.next_battery_publish_at ≡ now + p
      → b.pending_battery_status_query ≡ none
      → Done p now b (read_system_status json floats env config now parsed b)
  unfolding read_system_status
  status-Done now fault b e i = failed-Done now b
  status-Done now malformed b e i = failed-Done now b
  status-Done now (value payload) b e i = if-Done _ (failed-Done now b) (measured-Done now _ b e i)

  response-Done :
      (now : ℕ) (response : Option Response) (b : Bridge N)
      → b.next_battery_publish_at ≡ now + p
      → b.pending_battery_status_query ≡ none
      → Done p now b (read_battery_response json floats env config now response b)
  unfolding read_battery_response
  response-Done now none b e i = failed-Done now b
  response-Done now (some response) b e i =
      if-Done _ (status-Done now (json.parse response.payload) b e i) (failed-Done now b)

  pub settle-Done :
      (now : ℕ) (future : Exit (Option Response)) (b : Bridge N)
      → Done p now b (settle_battery_status json floats env config now future b)
  unfolding settle_battery_status
  settle-Done now (threw what) b = failed-Done now b
  settle-Done now (returned response) b = record {
    counted = d.counted;
    next = d.next;
    time = d.time;
    idle = d.idle;
  }
    where
      read : Bridge N
      read = record b {
        pending_battery_status_query = none;
        battery_status_answer = none;
        next_battery_publish_at = now + p;
      }

      d : Done p now read (read_battery_response json floats env config now response read)
      d = response-Done now response read refl refl
