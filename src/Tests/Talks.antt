-- ===== src/Tests/Talks.antt =====
-- Witnesses about matches and conversations.
use match_camp.Base.{◌≡◌, refl, inl, inr, none, List, [], ◌∷◌, arith, All, sort_by}
use match_camp.Database.Mutual.{IsSound}
use match_camp.Database.Result.{ok}
use match_camp.Database.Talks.{last_message_of, is_partner, list_matches_for_user}
use match_camp.Samples.{sample_env, sample_ana, paired_tables, paired_world}
use match_camp.Server.Bodies.{MatchItem, ConversationItem}
use match_camp.Server.Response.{match_list, conversation_list, write_json}
use match_camp.Server.Talks.{matches, conversations}
use match_camp.Server.Talks.Partnerships.{IsMatchItem, matches-Ends, IsTalkItem, conversations-Ends}
use match_camp.Text.{codes}
use match_camp.World.Ends.{Ends}

paired-IsSound : IsSound paired_tables
paired-IsSound = record {
  match_ids = (tt, tt);
  conversation_ids = (tt, tt);
  one_match = (tt, tt);
  one_conversation = (tt, tt);
  likes = ((omega arith, (inl (refl, refl, refl)), inr (inl (refl, refl, refl))), tt);
  sides = (inl (refl, inl (refl, inr refl)), (inl (refl, inl (refl, inl refl)), tt));
}

matches-Ends_example :
    Ends
      (λ resp db'.
        (db' ≡ paired_tables)
        × (items : List MatchItem) × (resp ≡ write_json 200 (match_list items))
        × All (IsMatchItem 1 paired_tables) items)
      (λ code db'. (code ≡ "matches_failed") × (db' ≡ paired_tables))
      (matches sample_env sample_ana paired_world)
matches-Ends_example = matches-Ends sample_env sample_ana paired_world paired-IsSound

conversations-Ends_example :
    Ends
      (λ resp db'.
        (db' ≡ paired_tables)
        × (items : List ConversationItem) × (resp ≡ write_json 200 (conversation_list items))
        × All (IsTalkItem 1 paired_tables) items)
      (λ code db'. (code ≡ "conversations_failed") × (db' ≡ paired_tables))
      (conversations sample_env sample_ana paired_world)
conversations-Ends_example = conversations-Ends sample_env sample_ana paired_world paired-IsSound

-- User 1 has one match, with user 2.
one_match_shown :
    list_matches_for_user 1 paired_tables
    ≡ ok (
      record {
        match_id = 60;
        conversation_id = 70;
        created_at = 6;
        partner_id = 2;
        partner_display_name = codes "Ana";
        partner_birth_date = none;
        partner_photo_url = [];
        last_message_body = [];
        last_message_sender_id = 0;
        last_message_at = none;
        unread_count = 0;
      }
          ∷ [],
      paired_tables,
    )
unfolding list_matches_for_user sort_by is_partner last_message_of
one_match_shown = refl
