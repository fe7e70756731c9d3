-- ===== src/Counter.antt =====
-- cratetorrent/src/counter.rs: counters of transferred bytes. Floating point numbers are a parameter.
pub mod Totals
mod Tests
use cratetorrent.Prelude.{ℕ, ◌+◌, ◌-◌, Bool, Checked, ret, panic, ◌>>=◌, add_bits, if◌then◌else◌}

-- `f64`: the conversion of a `u64`, the operations, the comparison, and rounding to a `u64`.
pub record FloatApi : Type 1 where
  pub Float : Type 0
  pub of_u64 : ℕ → Float
  pub plus : Float → Float → Float
  pub times : Float → Float → Float
  pub over : Float → Float → Float
  pub greater : Float → Float → Bool
  pub round_u64 : Float → ℕ

-- `Counter::WEIGHT`.
abbrev pub weight : ℕ
weight = 5

module _ (api : FloatApi) where
  open api use {Float, of_u64, plus, times, over, greater, round_u64}

  pub record Counter : Type 0 where
    pub total : ℕ
    pub round : ℕ
    pub avg : Float
    pub peak : Float

  unfoldable pub add : Counter → ℕ → Checked Counter
  add c bytes = do
    total ← add_bits 64 c.total bytes
    round ← add_bits 64 c.round bytes
    ret (record c { total = total; round = round })

  -- The running average at the end of a round.
  abbrev pub next_avg : Counter → Float
  next_avg c =
      plus (over (times c.avg (of_u64 (weight - 1))) (of_u64 weight))
        (over (of_u64 c.round) (of_u64 weight))

  unfoldable pub reset : Counter → Counter
  reset c = record {
    total = c.total;
    round = 0;
    avg = next_avg c;
    peak = if greater (next_avg c) c.peak then next_avg c else c.peak;
  }

  pub record ChannelCounter : Type 0 where
    pub down : Counter
    pub up : Counter

  unfoldable pub reset_channel : ChannelCounter → ChannelCounter
  reset_channel c = record { down = reset c.down; up = reset c.up }

  pub record ThruputCounters : Type 0 where
    pub protocol : ChannelCounter
    pub payload : ChannelCounter
    pub waste : Counter

  unfoldable pub reset_all : ThruputCounters → ThruputCounters
  reset_all c = record {
    protocol = reset_channel c.protocol;
    payload = reset_channel c.payload;
    waste = reset c.waste;
  }

  -- `AddAssign`: the rounds of the other counters are added.
  unfoldable pub add_channel : ChannelCounter → ChannelCounter → Checked ChannelCounter
  add_channel c rhs = do
    down ← add c.down rhs.down.round
    up ← add c.up rhs.up.round
    ret (record { down = down; up = up })

  unfoldable pub add_counters : ThruputCounters → ThruputCounters → Checked ThruputCounters
  add_counters c rhs = do
    protocol ← add_channel c.protocol rhs.protocol
    payload ← add_channel c.payload rhs.payload
    waste ← add c.waste rhs.waste.round
    ret (record { protocol = protocol; payload = payload; waste = waste })

  -- `Counter::avg` and `Counter::peak`.
  unfoldable pub avg_rounded : Counter → ℕ
  avg_rounded c = round_u64 c.avg

  unfoldable pub peak_rounded : Counter → ℕ
  peak_rounded c = round_u64 c.peak

  -- The derived `Default`s.
  abbrev default_counter : Counter
  default_counter = record { total = 0; round = 0; avg = of_u64 0; peak = of_u64 0 }

  abbrev default_channel : ChannelCounter
  default_channel = record { down = default_counter; up = default_counter }

  abbrev pub default_counters : ThruputCounters
  default_counters = record {
    protocol = default_channel;
    payload = default_channel;
    waste = default_counter;
  }
