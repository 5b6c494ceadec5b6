-- ===== src/Transport/Reachable.antt =====
-- The states that `start` and `stop` of transport/mod.rs lead to, called on a transport by its owner. A manager
-- keeps its transports to itself and calls neither.
use merabriar.Prelude.{◌≡◌, ◌⊎◌, inl, inr, refl, true, none, [], arith}
use merabriar.Rust.Text.{Text, Bytes}
use merabriar.Rust.Result.{ok}
use merabriar.Transport.{
  Transport, cloud, lan, bluetooth, tor, active, disabled, state, is_available, send, start, stop,
  new_cloud, new_lan, new_bluetooth, new_tor, new_manager, get_best_transport,
  get_available_transports,
}

-- The transports that the owner of one can have: one of the four new ones, started and stopped in any order.
pub data Owned : Transport → Type 0 where
  made_cloud : Owned new_cloud
  made_lan : Owned new_lan
  made_bluetooth : Owned new_bluetooth
  made_tor : Owned new_tor
  started : {t : Transport} → Owned t → Owned (start t).1
  stopped : {t : Transport} → Owned t → Owned (stop t).1

-- On or off, and on only for the cloud.
abbrev pub IsSettled : Transport → Type 0
IsSettled t = (state t ≡ disabled) ⊎ (t ≡ cloud active)

start-IsSettled : (t : Transport) → IsSettled (start t).1
unfolding start state
start-IsSettled (cloud s) = inr refl
start-IsSettled (lan s) = inl refl
start-IsSettled (bluetooth s) = inl refl
start-IsSettled (tor s) = inl refl

stop-IsSettled : (t : Transport) → IsSettled (stop t).1
unfolding stop state
stop-IsSettled (cloud s) = inl refl
stop-IsSettled (lan s) = inl refl
stop-IsSettled (bluetooth s) = inl refl
stop-IsSettled (tor s) = inl refl

Owned-IsSettled : {t : Transport} → Owned t → IsSettled t
unfolding state new_cloud new_lan new_bluetooth new_tor
Owned-IsSettled made_cloud = inl refl
Owned-IsSettled made_lan = inl refl
Owned-IsSettled made_bluetooth = inl refl
Owned-IsSettled made_tor = inl refl
Owned-IsSettled (started {t} r) = start-IsSettled t
Owned-IsSettled (stopped {t} r) = stop-IsSettled t

settled-on : (u : Transport) → IsSettled u → is_available u ≡ true → u ≡ cloud active
unfolding is_available
settled-on u (inl off) on = ground arith
settled-on u (inr e) on = e

cloud-sends :
    (recipient : Text) (data_bytes : Bytes) → send (cloud active) recipient data_bytes ≡ ok tt
unfolding send
cloud-sends recipient data_bytes = refl

none_new : (get_best_transport new_manager ≡ none) × (get_available_transports new_manager ≡ [])
unfolding get_best_transport get_available_transports new_manager is_available
none_new = (refl, refl)

-- However the owner of a new transport has started and stopped it, it is disabled or is the active cloud
-- transport; if it is available, it is the active cloud transport, and sending over it succeeds. A new manager, which
-- starts none of its transports, has no available transport and chooses none.
pub Owned-cloud_only :
    (t : Transport) (recipient : Text) (data_bytes : Bytes)
    → Owned t
    → IsSettled t
      × (is_available t ≡ true → (t ≡ cloud active) × (send t recipient data_bytes ≡ ok tt))
      × (get_best_transport new_manager ≡ none)
      × (get_available_transports new_manager ≡ [])
Owned-cloud_only t recipient data_bytes r =
    let settled = Owned-IsSettled r in
    (
      settled,
      (λ on. let e = settled-on t settled on in (e, rw e (cloud-sends recipient data_bytes))),
      none_new.0,
      none_new.1,
    )
