-- ===== src/Minecraft/PlayerLaws.antt =====
-- The commands that PlayerCommand of source/internal/minecraft/players.go answers with.
use bonghos.Base.{◌≤◌, ◌≡◌, ◌⊎◌, true, List, [], ◌∷◌, length, In, All}
use bonghos.Base.Text.{Text, codes}
use bonghos.Minecraft.Commands.{valid_player_name, valid_ip, spaced}
use bonghos.Minecraft.CommandLaws.{IsPrintable}

abbrev pub verbs : List Text
verbs =
    codes "tell"
    ∷ codes "kick"
    ∷ codes "ban"
    ∷ codes "pardon"
    ∷ codes "whitelist add"
    ∷ codes "whitelist remove"
    ∷ codes "op"
    ∷ codes "deop"
    ∷ codes "ban-ip"
    ∷ codes "pardon-ip"
    ∷ []

-- One of the fixed verbs with a valid name or address, and perhaps a reason; all on one line.
pub record IsCommand (player reason c : Text) : Type 0 where
  pub verb : Text
  pub is_verb : In verb verbs
  pub valid : (valid_player_name player ≡ true) ⊎ (valid_ip player ≡ true)
  pub form : (c ≡ spaced verb player) ⊎ (c ≡ spaced verb (spaced player reason))
  pub printable : All IsPrintable c
  pub short : length reason ≤ 200
