-- ===== src/World/State.antt =====
-- The state outside the process: the tables of PostgreSQL (migrations), the entries of Redis, the
-- queues of RabbitMQ, the clock, and the sources of uuids and serial numbers.
use ffgif.Base.{ℕ, Option, none, List, Text, ◌≡◌}
use ffgif.World.Entities.{
  User, Verifier, Reseter, Profile, Quota, Friendship, Gif, Share, ShareByToken, Job, EmailMessage,
  VideoMessage, SaveVideoMessage, LastUpload, Info, Mail,
}

pub record Db : Type 0 where
  pub users : List User
  pub verifiers : List Verifier
  pub reseters : List Reseter
  pub profiles : List Profile
  pub quotas : List Quota
  pub friendships : List Friendship
  pub gifs : List Gif
  pub shares : List Share
  pub share_tokens : List ShareByToken
  pub jobs : List Job
  pub last_uploads : List LastUpload

pub record CacheEntry : Type 0 where
  pub key : Text
  pub value : Text
  -- `none`: never
  pub expires : Option ℕ

pub record World : Type 0 where
  pub db : Db
  pub cache : List CacheEntry
  pub emails : List EmailMessage
  pub videos : List VideoMessage
  -- the queues video.save.queue and save.retry.queue
  pub saves : List SaveVideoMessage
  pub save_retries : List SaveVideoMessage
  -- the keys of the objects in the storage bucket of MinIO, and what is known of an object
  pub objects : List Text
  pub stat : Text → Option Info
  pub sent : List Mail
  -- the files that the program has put into the directory for temporary files
  pub files : List Text
  pub now : ℕ
  -- the uuids that the next calls will draw, and how many are drawn
  pub uuids : ℕ → ℕ
  pub drawn : ℕ
  pub serial : ℕ
  -- which calls to the outside fail, by the number of the call
  pub outage : ℕ → Option ℕ
  pub calls : ℕ

-- Nothing outside fails.
abbrev pub NoOutage : World → Type 0
NoOutage w = (n : ℕ) → w.outage n ≡ none
