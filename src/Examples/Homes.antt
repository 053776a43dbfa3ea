-- ===== src/Examples/Homes.antt =====
-- A group's message in the user's Telegram chat, and the user's reply.
use aap_hermes.Prelude.{◌≡◌, refl, ◌≤◌, true, false, some, [], ◌∷◌, arith}
use aap_hermes.Prelude.Text.{strip, lstrip, rstrip, is_space, is_empty, starts_with, take_text}
use aap_hermes.HomeContexts.{
  GroupHomeContext, File, missing, contexts, encode, encode_all, load, save, others, last_twenty,
  drop, record_group_home_context, home_reply,
}
use aap_hermes.HomeContexts.Latest.{
  reread, clipped, count, home_reply-record_group_home_context, count-record_group_home_context,
}

abbrev told : GroupHomeContext
told = record {
  platform = "telegram";
  chat_id = "77";
  conversation_id = "g1";
  group_label = "Dinner";
  sender = "james^hermes.example";
  text_preview = "Does that work?";
  recorded_at = 5;
}

abbrev after : File
after = contexts (encode told ∷ [])

wrote : record_group_home_context 4 true told missing ≡ some after
unfolding record_group_home_context load save others last_twenty drop encode_all take_text
wrote = refl

nothing_stored : load 4 missing ≡ some []
unfolding load
nothing_stored = refl

a_reply : is_empty (strip " Yes ") ≡ false
unfolding strip lstrip rstrip is_space
a_reply = refl

no_command : starts_with (strip " Yes ") "/aap" ≡ false
unfolding starts_with strip lstrip rstrip is_space
no_command = refl

home_reply-record_group_home_context_example :
    home_reply 9 true " Yes " "telegram" "77" after
    ≡ some (some (reread (clipped told), strip " Yes "))
home_reply-record_group_home_context_example =
    home_reply-record_group_home_context 4 9 told " Yes " missing after [] refl refl refl a_reply
      no_command nothing_stored tt (omega arith) wrote

count-record_group_home_context_example : count after ≤ 20
count-record_group_home_context_example =
    count-record_group_home_context 4 told missing after refl wrote
