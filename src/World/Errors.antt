-- ===== src/World/Errors.antt =====
-- Errors: the sentinel values that the program compares with errors.Is, and how it wraps them.
use ffgif.Base.{ℕ, Bool, false, ◌||◌, ◌==◌, String}

pub data Sentinel : Type 0 where
  no_rows cache_miss token_expired : Sentinel
  user_not_found invalid_credential user_not_verified user_exists user_create_failed : Sentinel
  verifier_token_create_failed set_profile_failed quota_create_failed : Sentinel
  token_fetch_failed create_reset_token_failed user_already_verified : Sentinel
  reseter_token_fetch_failed invalid_token set_user_verified_failed : Sentinel
  hash_gen_failed password_mismatched table_update_failed cache_set_failed : Sentinel
  cache_get_failed message_queue_failed quota_exceeded : Sentinel
  friendship_not_found already_exists cannot_friend_self : Sentinel
  share_not_found not_authorized invalid_expiry : Sentinel
  gif_not_found gif_fetch_failed gif_owner_mismatch thumbnail_not_found : Sentinel
  etag_validation_failed job_not_found invalid_user_id last_video_not_found : Sentinel
  delete_by_key_failed empty_key invalid_ext invalid_filetype empty_value : Sentinel
  friendship_not_authorized : Sentinel

-- Sentinels are compared by identity, here by a number of their own.
abbrev code_of : Sentinel → ℕ
code_of no_rows = 0
code_of cache_miss = 1
code_of token_expired = 2
code_of user_not_found = 3
code_of invalid_credential = 4
code_of user_not_verified = 5
code_of user_exists = 6
code_of user_create_failed = 7
code_of verifier_token_create_failed = 8
code_of set_profile_failed = 9
code_of quota_create_failed = 10
code_of token_fetch_failed = 11
code_of create_reset_token_failed = 12
code_of user_already_verified = 13
code_of reseter_token_fetch_failed = 14
code_of invalid_token = 15
code_of set_user_verified_failed = 16
code_of hash_gen_failed = 17
code_of password_mismatched = 18
code_of table_update_failed = 19
code_of cache_set_failed = 20
code_of cache_get_failed = 21
code_of message_queue_failed = 22
code_of quota_exceeded = 23
code_of friendship_not_found = 24
code_of already_exists = 25
code_of cannot_friend_self = 26
code_of share_not_found = 27
code_of not_authorized = 28
code_of invalid_expiry = 29
code_of gif_not_found = 30
code_of gif_fetch_failed = 31
code_of gif_owner_mismatch = 32
code_of thumbnail_not_found = 33
code_of etag_validation_failed = 34
code_of job_not_found = 35
code_of invalid_user_id = 36
code_of last_video_not_found = 37
code_of delete_by_key_failed = 38
code_of empty_key = 39
code_of invalid_ext = 40
code_of invalid_filetype = 41
code_of empty_value = 42
code_of friendship_not_authorized = 43

pub data Error : Type 0 where
  -- one of the values above
  known : Sentinel → Error
  -- fmt.Errorf("…: %w", err)
  wrap : Error → Error
  -- fmt.Errorf("…: %w: %w", a, b) and errors.Join(a, b)
  join : Error → Error → Error
  -- an error that is nothing but its message
  message : String → Error
  -- a fault of the network, the database, the cache, the queue or the storage, by its number
  driver : ℕ → Error
  -- a constraint or a cast that PostgreSQL refuses
  sql_refused : Error
  -- a nil dereference
  panic : Error

-- errors.Is(err, target)
abbrev pub errors_is : Error → Sentinel → Bool
errors_is (known s) target = code_of s == code_of target
errors_is (wrap e) target = errors_is e target
errors_is (join a b) target = errors_is a target || errors_is b target
errors_is (message m) target = false
errors_is (driver n) target = false
errors_is sql_refused target = false
errors_is panic target = false
