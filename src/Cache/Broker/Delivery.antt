-- ===== src/Cache/Broker/Delivery.antt =====
-- Who gets a message.
use gotest.Common.{
  ◌≡◌, ◌∙◌, refl, sym, ap, none, some, List, [], ◌∷◌, ◌++◌, map, append-nil, true, false, All,
}
use gotest.Cache.Broker.{
  Msg, Chan, Broker, queue_full, has_room, push, next, send_to, sent, send, close, BrokerV2,
  send_v2, subscribe_v2,
}

abbrev pub HasRoom : Chan → Type 0
HasRoom ch = has_room ch ≡ true

-- Channels with room get the message, and what follows decides the rest.
send_to-append :
    (m : Msg) (xs ys : List Chan)
    → All HasRoom xs
    → send_to m (xs ++ ys) ≡ ((send_to m ys).0, map (push m) xs ++ (send_to m ys).1)
unfolding send_to
send_to-append m [] ys h = refl
send_to-append m (x ∷ xs) ys h = rw h.0 (ap (next (push m x)) (send_to-append m xs ys h.1))

send_to_full :
    (m : Msg) (full : Chan) (ys : List Chan)
    → has_room full ≡ false
    → send_to m (full ∷ ys) ≡ (some queue_full, full ∷ ys)
unfolding send_to
send_to_full m full ys h = rw h refl

-- A message is sent to the subscribers in their order; the first channel that has neither room nor a
-- receiver that waits ends that with the error: the subscribers before it have got the message, and it
-- and those behind are as they were. If each has one or the other, all get it and there is no error.
pub send_partial :
    (m : Msg) (xs ys : List Chan) (full : Chan)
    → All HasRoom xs
    → has_room full ≡ false
    → (send m (record { chans = xs ++ full ∷ ys })
        ≡ (some queue_full, record { chans = map (push m) xs ++ full ∷ ys }))
      × (send m (record { chans = xs }) ≡ (none, record { chans = map (push m) xs }))
unfolding send send_to
send_partial m xs ys full h f = (
  ap sent (
      send_to-append m xs (full ∷ ys) h
      ∙ ap (λ r. (r.0, map (push m) xs ++ r.1)) (send_to_full m full ys f)),
  ap sent (
      ap (send_to m) (sym (append-nil xs))
      ∙ (send_to-append m xs [] h ∙ ap (λ l. (none, l)) (append-nil (map (push m) xs)))),
)

-- After `Close`, a message reaches nobody and is no error.
pub send-close : (m : Msg) (b : Broker) → send m (close b).0 ≡ (none, (close b).0)
unfolding send close send_to
send-close m b = refl

-- Without channels between, a listener that subscribes last is called last.
pub send_v2-subscribe_v2 :
    {W : Type 0} (m : Msg) (cb : Msg → W → W) (b : BrokerV2 W) (w : W)
    → send_v2 m (subscribe_v2 cb b) w ≡ cb m (send_v2 m b w)
unfolding send_v2 subscribe_v2
send_v2-subscribe_v2 m cb [] w = refl
send_v2-subscribe_v2 m cb (c ∷ cs) w = send_v2-subscribe_v2 m cb cs (c m w)
