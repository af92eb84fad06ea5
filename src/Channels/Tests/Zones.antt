-- ===== src/Channels/Tests/Zones.antt =====
-- The sample's zone is given its channel: instances of the theorems on requests.
use brandy_manager_back.Prelude.{arith, Memᴰ, ◌∙◌, sym, ◌≡◌, refl, none, [], sort_by}
use brandy_manager_back.Result.{ok}
use brandy_manager_back.Table.{HasUniqueKeys}
use brandy_manager_back.Models.Organizations.{zone_row}
use brandy_manager_back.Playback.Snapshots.{latest_version, effective_schedule_snapshot}
use brandy_manager_back.Scheduling.Resolution.{resolve_effective_schedule_for_zone}
use brandy_manager_back.Models.Channels.{ZoneChannelAssignment}
use brandy_manager_back.Channels.Store.{ChannelDb}
use brandy_manager_back.Channels.Assigned.{IsOpened, IsReady, assign-accepted}
use brandy_manager_back.Channels.Requests.{ChannelRequest, run_channel}
use brandy_manager_back.Channels.Served.{IsConsistent}
use brandy_manager_back.Channels.Everything.{run-IsConsistent, run-IsPlayable}
use brandy_manager_back.Channels.Playing.{IsPlayable}
use brandy_manager_back.Channels.Assigning.{assign_channel_to_zone}
use brandy_manager_back.Channels.Tests.Sample.{env, db, stored, zone, channel, channel_snapshot}

abbrev assign : ChannelRequest
assign = ChannelRequest.assign 1 8 2 none [] 20 21

sample-IsConsistent : IsConsistent db
sample-IsConsistent = record {
  keys = λ x y mx my e. elim mx [ ];
  served = λ zone. record {
    one = λ o p mo mp ro rp. elim mo [ ];
    agrees = λ o m r. elim m [ ];
    found = λ h. cc;
  };
}

accepted : run_channel env 50 assign db ≡ ok (tt, stored (run_channel env 50 assign db))
unfolding run_channel assign_channel_to_zone
accepted = refl

run-IsConsistent_example : IsConsistent (stored (run_channel env 50 assign db))
run-IsConsistent_example = run-IsConsistent env 50 assign db accepted sample-IsConsistent

run-IsPlayable_example : IsPlayable (stored (run_channel env 50 assign db))
run-IsPlayable_example = run-IsPlayable env 50 assign db accepted (λ a c m o g. elim m [ ])

one_zone : HasUniqueKeys db.store.zones
one_zone = λ x y mx my e. elim mx [
  | Memᴰ.tail t ↦ elim t [ ]
  | Memᴰ.head p ↦ elim my [ Memᴰ.tail t ↦ elim t [ ] | Memᴰ.head q ↦ p ∙ sym q ]
]

sample-IsReady : IsReady env 50 db zone
unfolding sort_by latest_version effective_schedule_snapshot resolve_effective_schedule_for_zone
sample-IsReady = record { versions = ground arith; schedule = λ s e. cc }

assign-accepted_example :
    (a : ZoneChannelAssignment) × (db' : ChannelDb) × (assign_channel_to_zone env 1 8 2 none [] 20
        21 50 db
      ≡ ok (a, db'))
    × IsOpened db' 8 2 a
unfolding sort_by
assign-accepted_example =
    assign-accepted env 1 8 2 none [] 20 21 50 db zone channel channel_snapshot refl refl refl refl
      refl (λ a b ma mb x y. elim ma [ ]) refl refl one_zone sample-IsReady
