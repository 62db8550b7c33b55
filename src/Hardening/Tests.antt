-- ===== src/Hardening/Tests.antt =====
-- memu/hardening.py: the theorems on subjects at concrete texts.
use fumemory.Base.{String, ◌≤◌, ◌<◌, ◌≡◌, refl, false}
use fumemory.Hardening.{
  len, has_wildcard, is_safe_char, matches_rest, matches_safe, sanitize_nats_subject,
}
use fumemory.Hardening.Subjects.{IsSafeLine, sanitize_sound}

sanitize_sound_example :
    ◌≡◌ {A = String} "lane.a-1" "lane.a-1"
    × (0 < len "lane.a-1")
    × (len "lane.a-1" ≤ 256)
    × (has_wildcard "lane.a-1" ≡ false)
    × IsSafeLine "lane.a-1"
unfolding sanitize_nats_subject len has_wildcard matches_safe matches_rest is_safe_char
sanitize_sound_example = sanitize_sound "lane.a-1" "lane.a-1" refl
