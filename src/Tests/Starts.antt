-- ===== src/Tests/Starts.antt =====
-- The number of a version, and the text of a message.
use cbsignal_redis.Base.{◌≡◌, refl, some, [], ◌∷◌, ◌++◌, str}
use cbsignal_redis.Base.Int.{◌+ℤ◌, ◌*ℤ◌, wrap64, pos}
use cbsignal_redis.Main.{cons_head, split, digits_value, unsigned}
use cbsignal_redis.Main.Config.{atoi_of, atoi, version_num_of, get_version_num}
use cbsignal_redis.Main.Websocket.Payload.{replace_newlines, trim_by, trim_space, clean}

-- The version in main.go.
version_num : get_version_num (str "4.6.3") ≡ some (pos 46)
unfolding get_version_num version_num_of split cons_head atoi atoi_of unsigned digits_value wrap64
    ◌*ℤ◌ ◌+ℤ◌
version_num = refl

-- The white space around a message goes, and a line break in it becomes a space.
cleaned : clean (str " {" ++ 10 ∷ str "} " ++ 226 ∷ 128 ∷ 168 ∷ 10 ∷ []) ≡ str "{ }"
unfolding clean trim_space trim_by replace_newlines
cleaned = refl
