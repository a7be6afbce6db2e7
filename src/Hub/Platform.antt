-- ===== src/Hub/Platform.antt =====
-- What library/streamhub takes from tokio, chrono and serde_json. A `World` stands for all channels
-- and tasks. `never` is a wait that does not end.
use xiu.Prelude.{Bool}

pub data Received (T : Type 0) : Type 0 where
  item : T → Received T
  closed : Received T
  never : Received T

pub record Platform : Type 1 where
  pub World : Type 0
  pub Sender : Type 0 → Type 0
  pub Receiver : Type 0 → Type 0
  -- The sender of a `broadcast::channel`.
  pub Broadcaster : Type 0 → Type 0
  pub DateTime : Type 0
  pub default_time : DateTime
  pub Value : Type 0
  pub channel : (T : Type 0) → World → (Sender T × Receiver T) × World
  -- The result is `is_ok()`.
  pub send : (T : Type 0) → Sender T → T → World → Bool × World
  pub recv : (T : Type 0) → Receiver T → World → Received T × World
  pub broadcast : (T : Type 0) → Broadcaster T → T → World → Bool × World
