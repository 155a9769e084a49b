-- ===== src/World/Entities.antt =====
-- The structs of internal/domain and internal/port/queue, which are the rows of the tables and the
-- messages of the queues. A uuid is a number, a time a number of nanoseconds.
use ffgif.Base.{ℕ, Bool, Option, Text}
use ffgif.Base.Int.{ℤ}

pub record User : Type 0 where
  pub id : ℕ
  pub username : Text
  pub fullname : Text
  pub email : Text
  pub password_hash : Text
  pub is_verified : Bool
  pub role : Text
  pub created_at : ℕ
  pub updated_at : ℕ
  pub deleted_at : Option ℕ

pub record Verifier : Type 0 where
  pub id : ℕ
  pub user_id : ℕ
  pub token : Text
  pub created_at : ℕ
  pub expire_at : ℕ

pub record Reseter : Type 0 where
  pub id : ℕ
  pub user_id : ℕ
  pub token : Text
  pub used : Bool
  pub created_at : ℕ
  pub expire_at : ℕ

pub record Profile : Type 0 where
  pub id : ℕ
  pub user_id : ℕ
  pub profile_pic : Text
  pub created_at : ℕ
  pub updated_at : ℕ

pub record Quota : Type 0 where
  pub id : ℕ
  pub user_id : ℕ
  pub used_bytes : ℕ
  pub total_bytes : ℕ
  pub gif_count : ℕ
  pub gif_limit : ℕ

pub data FriendStatus : Type 0 where
  pending accepted blocked : FriendStatus

pub record Friendship : Type 0 where
  pub id : ℕ
  pub requester_id : ℕ
  pub addressee_id : ℕ
  pub status : FriendStatus
  pub created_at : ℕ
  pub updated_at : ℕ

pub record FriendResponse : Type 0 where
  pub user_id : ℕ
  pub username : Text
  pub fullname : Text
  pub status : FriendStatus
  pub created_at : ℕ

pub record Gif : Type 0 where
  pub key : Text
  pub name : Text
  pub user_id : ℕ
  pub status : Text
  pub persist : Bool
  pub download : ℕ
  pub url : Text
  pub thumbnail_key : Text
  pub file_size_bytes : ℕ
  pub width : ℕ
  pub height : ℕ
  pub duration_seconds : ℕ
  pub is_public : Bool
  pub created_at : ℕ
  pub updated_at : ℕ

pub record Share : Type 0 where
  pub id : ℕ
  pub gif_key : Text
  pub owner_id : ℕ
  pub shared_with : ℕ
  pub expires_at : Option ℕ
  pub created_at : ℕ

pub record ShareByToken : Type 0 where
  pub gif_key : Text
  pub token : Text
  pub email : Text
  pub expires_at : Option ℕ
  pub created_at : ℕ

pub data JobStatus : Type 0 where
  queued processing done failed : JobStatus

pub record Job : Type 0 where
  pub id : ℕ
  pub user_id : ℕ
  pub type : Text
  pub status : JobStatus
  pub progress : ℕ
  pub error_message : Text
  pub result_key : Text
  pub created_at : ℕ
  pub updated_at : ℕ

pub record EmailMessage : Type 0 where
  pub to : Text
  pub name : Text
  pub token : Text

-- The two float32 times of a message are the caller's, and are only passed on: numbers here.
pub record VideoMessage : Type 0 where
  pub user_id : Text
  pub job_id : Text
  pub key : Text
  pub start : ℕ
  pub end : ℕ
  pub width : ℕ
  pub fps : ℕ
  pub loop : Bool
  pub retries : ℕ

pub record SaveVideoMessage : Type 0 where
  pub key : Text
  pub user_id : Text
  pub filename : Text
  pub retries : ℕ

-- The duration of an upload is never set.
pub record LastUpload : Type 0 where
  pub user_id : ℕ
  pub file_key : Text
  pub filename : Text
  pub content_type : Text
  pub size_bytes : Option ℤ
  pub thumbnail_url : Option Text
  pub uploaded_at : ℕ
  pub updated_at : ℕ

-- What the storage says of an object.
pub record Info : Type 0 where
  pub size : ℤ
  pub content_type : Text
  pub uploaded_at : ℕ

-- A mail that has been handed to the SMTP server.
pub record Mail : Type 0 where
  pub from : Text
  pub to : Text
  pub subject : Text
  pub body : Text
