-- ===== src/Minecraft/Commands.antt =====
-- The commands for the console of a Minecraft server: PlayerCommand of source/internal/minecraft/players.go.
use bonghos.Base.{
  ℕ, zero, suc, ◌-◌, Bool, ◌&&◌, ◌||◌, not, [], ◌∷◌, ◌++◌, Option, none, some, if◌then◌else◌, eqb,
  ltb, leb, all, filter, length, String, ◌==◌,
}
use bonghos.Base.Text.{Text, text_eq, codes, rune_length, byte_length, trim_space}

abbrev pub is_digit : ℕ → Bool
is_digit c = leb b'0' c && leb c b'9'

abbrev pub is_name_char : ℕ → Bool
is_name_char c =
    (leb b'A' c && leb c b'Z') || ((leb b'a' c && leb c b'z') || (is_digit c || eqb c b'_'))

-- playerNameRE
abbrev pub valid_player_name : Text → Bool
valid_player_name name = leb 1 (length name) && (leb (length name) 16 && all is_name_char name)

abbrev pub is_ip_char : ℕ → Bool
is_ip_char c =
    is_digit c
    || ((leb b'a' c && leb c b'f') || ((leb b'A' c && leb c b'F') || (eqb c b'.' || eqb c b':')))

-- ipRE
abbrev pub valid_ip : Text → Bool
valid_ip ip = leb 3 (length ip) && (leb (length ip) 45 && all is_ip_char ip)

-- How the bytes of a rune that is cut through read: each as U+FFFD.
abbrev pub pieces : ℕ → Text
pieces zero = []
pieces (suc n) = 0xfffd ∷ pieces n

-- The first `n` bytes of a text.
unfoldable pub cut_bytes : ℕ → Text → Text
cut_bytes n [] = []
cut_bytes n (r ∷ rs) =
    let rest = cut_bytes (n - rune_length r) rs in
    if leb (rune_length r) n then r ∷ rest else pieces n

-- sanitizeReason
unfoldable pub sanitize_reason : Text → Text
unfolding cut_bytes trim_space
sanitize_reason reason =
    let kept = filter (λ r. not (ltb r 0x20)) reason in
    trim_space (if ltb 200 (byte_length kept) then cut_bytes 200 kept else kept)

abbrev pub spaced : Text → Text → Text
spaced a b = a ++ b' ' ∷ b

-- `command player`, and the reason behind it if there is one.
abbrev pub with_reason : Text → Text → Text → Text
with_reason command player reason =
    if text_eq reason [] then spaced command player else spaced command (spaced player reason)

pub data Action : Type 0 where
  send_message kick ban pardon whitelist_add whitelist_remove op deop ban_ip pardon_ip unknown :
      Action

-- The action of a name.
unfoldable pub action_of : String → Action
action_of a =
    if a == "send_message"
    then send_message
    else if a == "kick"
    then kick
    else if a == "ban"
    then ban
    else if a == "pardon"
    then pardon
    else if a == "whitelist_add"
    then whitelist_add
    else if a == "whitelist_remove"
    then whitelist_remove
    else if a == "op"
    then op
    else if a == "deop"
    then deop
    else if a == "ban_ip"
    then ban_ip
    else if a == "pardon_ip"
    then pardon_ip
    else unknown

abbrev pub named : Text → Text → Option Text
named player command = if valid_player_name player then some command else none

abbrev pub addressed : Text → Text → Option Text
addressed ip command = if valid_ip ip then some command else none

abbrev pub tell : Text → Text → Option Text
tell player msg =
    if text_eq msg [] then none else named player (spaced (codes "tell") (spaced player msg))

abbrev pub command_of : Action → Text → Text → Option Text
command_of send_message player reason = tell player reason
command_of kick player reason = named player (with_reason (codes "kick") player reason)
command_of ban player reason = named player (with_reason (codes "ban") player reason)
command_of pardon player reason = named player (spaced (codes "pardon") player)
command_of whitelist_add player reason = named player (spaced (codes "whitelist add") player)
command_of whitelist_remove player reason = named player (spaced (codes "whitelist remove") player)
command_of op player reason = named player (spaced (codes "op") player)
command_of deop player reason = named player (spaced (codes "deop") player)
command_of ban_ip player reason = addressed player (with_reason (codes "ban-ip") player reason)
command_of pardon_ip player reason = addressed player (spaced (codes "pardon-ip") player)
command_of unknown player reason = none

-- PlayerCommand; `none` is any of its errors.
unfoldable pub player_command : String → Text → Text → Option Text
player_command action player extra = command_of (action_of action) player (sanitize_reason extra)
