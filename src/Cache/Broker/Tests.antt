-- ===== src/Cache/Broker/Tests.antt =====
-- A witness for the message queues.
use gotest.Common.{◌≡◌, refl, none, some, [], ◌∷◌, ◌++◌, map, false}
use gotest.Common.Text.{codes}
use gotest.Cache.Broker.{Msg, Chan, queue_full, push, send}
use gotest.Cache.Broker.Delivery.{send_partial}

abbrev hello : Msg
hello = record { content = codes "hello" }

abbrev full : Chan
full = record { cap = 1; queue = hello ∷ []; receivers = 0; handed = []; closed = false }

-- One without a buffer, at which a receiver waits.
abbrev waited : Chan
waited = record { cap = 0; queue = []; receivers = 1; handed = []; closed = false }

send_partial_example :
    (send hello (record { chans = (waited ∷ []) ++ full ∷ full ∷ [] })
      ≡ (some queue_full, record { chans = map (push hello) (waited ∷ []) ++ full ∷ full ∷ [] }))
    × (send hello (record { chans = waited ∷ [] })
        ≡ (none, record { chans = map (push hello) (waited ∷ []) }))
send_partial_example = send_partial hello (waited ∷ []) (full ∷ []) full (refl, tt) refl
