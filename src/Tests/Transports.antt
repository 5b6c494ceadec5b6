-- ===== src/Tests/Transports.antt =====
-- The transport manager on small inputs.
use merabriar.Prelude.{◌≡◌, refl, true, some, none, [], ◌∷◌}
use merabriar.Transport.{
  TransportManager, cloud, lan, tor, active, disabled, start, stop, new_cloud, new_manager,
  get_best_transport, get_available_transports, is_available, send,
}
use merabriar.Transport.Reachable.{Owned, made_cloud, started, stopped, IsSettled, Owned-cloud_only}
use merabriar.Rust.Text.{text}
use merabriar.Rust.Result.{ok}

restarted : Owned (cloud active)
unfolding new_cloud start stop
restarted = started {t = cloud disabled} (stopped {t = cloud active} (started made_cloud))

Owned-cloud_only_example :
    IsSettled (cloud active)
    × (is_available (cloud active) ≡ true
        → (cloud active ≡ cloud active) × (send (cloud active) (text "bob") (1 ∷ []) ≡ ok tt))
    × (get_best_transport new_manager ≡ none)
    × (get_available_transports new_manager ≡ [])
Owned-cloud_only_example = Owned-cloud_only (cloud active) (text "bob") (1 ∷ []) restarted

abbrev both : TransportManager
both = record { transports = tor disabled ∷ lan active ∷ cloud active ∷ [] }

picks_lan : get_best_transport both ≡ some (lan active)
unfolding get_best_transport
picks_lan = refl
