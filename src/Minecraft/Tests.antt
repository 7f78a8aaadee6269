-- ===== src/Minecraft/Tests.antt =====
-- Tests of the commands and the properties.
use bonghos.Base.Parse.{cut_at, split_on}
use bonghos.Base.{◌≡◌, refl, ◌++◌, none, some, [], ◌∷◌, arith}
use bonghos.Base.Text.{trim_right, trim_left, trim_space, byte_length, text_eq, Text, codes}
use bonghos.Minecraft.Commands.{action_of, player_command, sanitize_reason}
use bonghos.Minecraft.Properties.{
  assigns, has_dots, read_properties, lookup, write_property, world_dir,
}
use bonghos.Minecraft.PropertyLaws.{IsKey, IsValue}
use bonghos.Minecraft.WriteLaws.{lookup-write_property}

kicked :
    player_command "kick" (codes "Alice") (10 ∷ codes "too loud" ++ 13 ∷ [])
    ≡ some (codes "kick Alice too loud")
unfolding player_command action_of text_eq sanitize_reason byte_length
kicked = refl

bad_name : player_command "op" (codes "Alice Bob") [] ≡ none
unfolding player_command action_of
bad_name = refl

empty_message : player_command "send_message" (codes "Alice") (codes "  ") ≡ none
unfolding player_command action_of text_eq sanitize_reason byte_length
empty_message = refl

unknown_action : player_command "give" (codes "Alice") [] ≡ none
unfolding player_command action_of
unknown_action = refl

abbrev file : Text
file = codes "#hello" ++ 10 ∷ codes " motd = a=b " ++ 10 ∷ codes "level-name=w"

read_test : lookup (codes "motd") (read_properties file) ≡ some (codes "a=b")
unfolding lookup read_properties split_on text_eq trim_space cut_at
read_test = refl

world_test : world_dir (some file) ≡ codes "w"
unfolding world_dir lookup read_properties split_on text_eq trim_space cut_at has_dots
world_test = refl

world_escape : world_dir (some (codes "level-name=../x")) ≡ codes "world"
unfolding world_dir lookup read_properties split_on text_eq trim_space cut_at has_dots
world_escape = refl

write_test :
    write_property (codes "motd") (codes "c") file
    ≡ codes "#hello" ++ 10 ∷ codes "motd=c" ++ 10 ∷ codes "level-name=w"
unfolding write_property split_on assigns trim_space cut_at text_eq
write_test = refl

-- A value with a line break sets a second property.
injected :
    lookup (codes "online-mode") (
      read_properties
        (write_property (codes "motd") (codes "x" ++ 10 ∷ codes "online-mode=false") file))
    ≡ some (codes "false")
unfolding lookup read_properties split_on write_property assigns trim_space cut_at text_eq
injected = refl

motd-IsKey : IsKey (codes "motd")
unfolding trim_left trim_right
motd-IsKey = record {
  trimmed = record { left = refl; right = refl };
  no_equals = ground arith;
  no_break = ground arith;
  no_comment = refl;
}

some-IsValue : IsValue (codes "a b=c")
unfolding trim_left trim_right
some-IsValue = record { trimmed = record { left = refl; right = refl }; no_break = ground arith }

lookup-write_property_example :
    (lookup (codes "motd") (read_properties (write_property (codes "motd") (codes "a b=c") file))
      ≡ some (codes "a b=c"))
    × (lookup
          (codes "level-name")
          (read_properties (write_property (codes "motd") (codes "a b=c") file))
        ≡ lookup (codes "level-name") (read_properties file))
lookup-write_property_example =
    lookup-write_property (codes "motd") (codes "a b=c") (codes "level-name") file motd-IsKey
      some-IsValue (λ e. cc e)
