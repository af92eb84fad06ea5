-- ===== src/Channels/Payload.antt =====
-- What is hashed when a channel is published (apps/playlists/services.py, `channel_snapshot_payload`).
use brandy_manager_back.Prelude.{ℕ, ℤ, Option, List}
use brandy_manager_back.Text.{Text}
use brandy_manager_back.Models.Channels.{Policy}

pub record PlaylistEntry : Type 0 where
  pub playlist : ℕ
  pub playlist_snapshot : Option ℕ
  pub version : Option ℕ
  pub weight : ℕ
  pub priority : ℤ
  pub active_from : Option ℕ
  pub active_until : Option ℕ

pub record ChannelPayload : Type 0 where
  pub channel : ℕ
  pub name : Text
  pub code : Text
  pub policy : Policy
  pub playlists : List PlaylistEntry
