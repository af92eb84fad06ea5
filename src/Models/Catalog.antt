-- ===== src/Models/Catalog.antt =====
-- apps/catalog/models.py: songs and the audio content they stand for, as playlists read them.
use brandy_manager_back.Prelude.{ℕ, Option, Bool, true, false}
use brandy_manager_back.Table.{Row}
use brandy_manager_back.Models.Playlists.{Visibility}

pub data ContentType : Type 0 where
  song message : ContentType

pub data ContentStatus : Type 0 where
  draft processing ready disabled failed archived : ContentStatus

pub record AudioContent : Type 0 where
  pub id : ℕ
  pub owner_company : Option ℕ
  pub content_type : ContentType
  pub visibility : Visibility
  pub status : ContentStatus
  pub is_active : Bool

pub record Song : Type 0 where
  pub id : ℕ
  pub audio_content : ℕ

abbrev pub content_is_song : ContentType → Bool
content_is_song ContentType.song = true
content_is_song _ = false

abbrev pub content_is_ready : ContentStatus → Bool
content_is_ready ContentStatus.ready = true
content_is_ready _ = false

instance abbrev pub audio_content_row : Row AudioContent
audio_content_row = record { pk = λ c. c.id }

instance abbrev pub song_row : Row Song
song_row = record { pk = λ s. s.id }
