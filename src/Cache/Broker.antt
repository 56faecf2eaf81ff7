-- ===== src/Cache/Broker.antt =====
-- The message queues of cache/concurrency/channel/mq.go.
pub mod Delivery
mod Tests
use gotest.Common.{
  ℕ, zero, suc, Option, none, some, List, [], ◌∷◌, ◌++◌, map, length, Bool, true, false, ◌||◌, ltb,
  if◌then◌else◌,
}
use gotest.Common.Text.{Text}

-- `type Msg struct`
pub record Msg : Type 0 where
  pub content : Text

-- A channel with its capacity and what it holds, the number of receivers that wait at it and the
-- messages that such receivers were handed, and whether it is closed.
pub record Chan : Type 0 where
  pub cap : ℕ
  pub queue : List Msg
  pub receivers : ℕ
  pub handed : List Msg
  pub closed : Bool

pub record Broker : Type 0 where
  pub chans : List Chan

-- The error of `Send`: a queue is full.
pub data SendError : Type 0 where
  queue_full : SendError

-- The channel takes a message at once, also one without a buffer at which a receiver waits.
abbrev pub has_room : Chan → Bool
has_room ch = ltb 0 ch.receivers || ltb (length ch.queue) ch.cap

abbrev push_at : ℕ → Msg → Chan → Chan
push_at zero m ch = record ch { queue = ch.queue ++ m ∷ [] }
push_at (suc n) m ch = record ch { receivers = n; handed = ch.handed ++ m ∷ [] }

abbrev pub push : Msg → Chan → Chan
push m ch = push_at ch.receivers m ch

-- The loop of `Send`, which an error ends: the channels before have got the message.
abbrev next : Chan → Option SendError × List Chan → Option SendError × List Chan
next ch (e, chs) = (e, ch ∷ chs)

unfoldable pub send_to : Msg → List Chan → Option SendError × List Chan
send_to m [] = (none, [])
send_to m (ch ∷ chs) =
    let rest = next (push m ch) (send_to m chs) in
    if has_room ch then rest else (some queue_full, ch ∷ chs)

abbrev sent : Option SendError × List Chan → Option SendError × Broker
sent (e, chs) = (e, record { chans = chs })

unfoldable pub send : Msg → Broker → Option SendError × Broker
unfolding send_to
send m b = sent (send_to m b.chans)

-- `Subscribe`: the channel is the last one of the broker.
unfoldable pub subscribe : (cap : ℕ) → Broker → Broker
subscribe cap b = record {
  chans =
      b.chans ++ record { cap = cap; queue = []; receivers = 0; handed = []; closed = false } ∷ [];
}

-- `Close`: the broker without channels, and the channels that it closed.
abbrev pub close_chan : Chan → Chan
close_chan ch = record ch { closed = true }

unfoldable pub close : Broker → Broker × List Chan
close b = (record { chans = [] }, map close_chan b.chans)

-- `BrokerV2`: a listener acts on the state `W`.
abbrev pub BrokerV2 : Type 0 → Type 0
BrokerV2 W = List (Msg → W → W)

unfoldable pub send_v2 : {W : Type 0} → Msg → BrokerV2 W → W → W
send_v2 m [] w = w
send_v2 m (c ∷ cs) w = send_v2 m cs (c m w)

unfoldable pub subscribe_v2 : {W : Type 0} → (Msg → W → W) → BrokerV2 W → BrokerV2 W
subscribe_v2 cb b = b ++ cb ∷ []
