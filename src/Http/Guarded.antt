-- ===== src/Http/Guarded.antt =====
-- Which routes a guest can reach: the tables of Routes with the middleware Auth.
use ffgif.Base.{
  ◌≡◌, refl, ◌⊎◌, inl, inr, true, false, List, [], ◌∷◌, ◌++◌, arith, All, All-append, Text, codes,
  text_eq, has_prefix, trim_prefix, any,
}
use ffgif.World.{World, Result, ok, err, External, expired, malformed}
use ffgif.Pkg.{Config}
use ffgif.Http.Response.{Response}
use ffgif.Http.Chain.{Request, Handler}
use ffgif.Http.Routes
use ffgif.Http.Routes.{
  Route, AuthHandler, MediaHandler, ShareHandler, FriendHandler, UserHandler, behind_auth,
}

-- The routes that need no login.
abbrev pub open_patterns : List Text
open_patterns =
    codes "POST /auth/signup"
    ∷ codes "GET /auth/verify"
    ∷ codes "POST /auth/verify/resend"
    ∷ codes "POST /auth/login"
    ∷ codes "POST /auth/forgot-password"
    ∷ codes "POST /auth/reset"
    ∷ codes "GET /auth/reset"
    ∷ codes "GET /s/{token}"
    ∷ codes "GET /s/{token}/download"
    ∷ []

module _ (x : External) (cfg : Config) (r : Request) (w : World) where
  -- The request bears no token, or one that does not parse.
  abbrev pub IsGuest : Type 0
  IsGuest =
      (has_prefix r.authorization (codes "Bearer ") ≡ false)
      ⊎ ((x.jwt_parse cfg.jwt_secret_key (trim_prefix r.authorization (codes "Bearer ")) w.now
            ≡ expired)
          ⊎ (x.jwt_parse cfg.jwt_secret_key (trim_prefix r.authorization (codes "Bearer ")) w.now
              ≡ malformed))

  -- Answered with 401, and nothing has been touched.
  abbrev pub IsDenied : Result Response × World → Type 0
  IsDenied (ok resp, v) = (resp.status ≡ 401) × (v ≡ w)
  IsDenied (err _, v) = ⊥

  abbrev pub IsClosed : Route → Type 0
  IsClosed route = (any (text_eq route.pattern) open_patterns ≡ true) ⊎ IsDenied (route.handler r w)

  denied : (h : Handler) → IsGuest → IsDenied (behind_auth x cfg h r w)
  unfolding behind_auth text_eq
  denied h guest = ground arith

  auth-IsClosed : (h : AuthHandler) → IsGuest → All IsClosed (Routes.auth_routes x cfg h)
  unfolding Routes.auth_routes text_eq any
  auth-IsClosed h g = (
    inl refl,
    (
      inl refl,
      (inl refl, (inl refl, (inl refl, (inl refl, (inl refl, (inr (denied h.logout g), tt)))))),
    ),
  )

  media-IsClosed : (h : MediaHandler) → IsGuest → All IsClosed (Routes.media_routes x cfg h)
  unfolding Routes.media_routes
  media-IsClosed h g = (
    inr (denied h.get_gifs g),
    (
      inr (denied h.get_gifs_by_user_id g),
      (
        inr (denied h.get_by_key g),
        (
          inr (denied h.download g),
          (
            inr (denied h.get_gif_thumbnail g),
            (
              inr (denied h.update g),
              (
                inr (denied h.get_recents g),
                (
                  inr (denied h.delete g),
                  (
                    inr (denied h.save g),
                    (
                      inr (denied h.status g),
                      (
                        inr (denied h.stream g),
                        (
                          inr (denied h.last_video g),
                          (
                            inr (denied h.upload g),
                            (inr (denied h.conversion_status g), (inr (denied h.convert g), tt)),
                          ),
                        ),
                      ),
                    ),
                  ),
                ),
              ),
            ),
          ),
        ),
      ),
    ),
  )

  share-IsClosed : (h : ShareHandler) → IsGuest → All IsClosed (Routes.share_routes x cfg h)
  unfolding Routes.share_routes text_eq any
  share-IsClosed h g = (
    inr (denied h.create g),
    (
      inr (denied h.get g),
      (inr (denied h.delete g), (inr (denied h.create_by_token g), (inl refl, (inl refl, tt)))),
    ),
  )

  friend-IsClosed : (h : FriendHandler) → IsGuest → All IsClosed (Routes.friend_routes x cfg h)
  unfolding Routes.friend_routes
  friend-IsClosed h g = (
    inr (denied h.send_request g),
    (
      inr (denied h.list_pending_incoming g),
      (
        inr (denied h.accept g),
        (inr (denied h.reject g), (inr (denied h.list_friends g), (inr (denied h.remove g), tt))),
      ),
    ),
  )

  user-IsClosed : (h : UserHandler) → IsGuest → All IsClosed (Routes.user_routes x cfg h)
  unfolding Routes.user_routes
  user-IsClosed h g = (
    inr (denied h.get_profile g),
    (
      inr (denied h.get_profile_by_id g),
      (
        inr (denied h.get_quota g),
        (
          inr (denied h.update_profile g),
          (inr (denied h.change_password g), (inr (denied h.delete_user g), tt)),
        ),
      ),
    ),
  )

  -- A request without a token, or with one that does not parse, is answered with 401 on every
  -- route of the five tables but the nine that are meant for guests, whatever the handlers do: no
  -- handler runs, and neither the tables, nor the cache, nor a queue, nor the storage is touched.
  pub guest-IsClosed :
      (ha : AuthHandler) (hm : MediaHandler) (hs : ShareHandler) (hf : FriendHandler)
      (hu : UserHandler)
      → IsGuest
      → All IsClosed (
          Routes.auth_routes x cfg ha
          ++ Routes.media_routes x cfg hm
          ++ Routes.share_routes x cfg hs
          ++ Routes.friend_routes x cfg hf
          ++ Routes.user_routes x cfg hu)
  guest-IsClosed ha hm hs hf hu g =
      All-append IsClosed _ _
        (All-append IsClosed _ _
          (All-append IsClosed _ _
            (All-append IsClosed _ _ (auth-IsClosed ha g) (media-IsClosed hm g))
            (share-IsClosed hs g))
          (friend-IsClosed hf g))
        (user-IsClosed hu g)
