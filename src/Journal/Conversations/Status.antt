-- ===== src/Journal/Conversations/Status.antt =====
-- The platform and the processing mark of a conversation, gubbi/storage/repositories/conversations.py.
use gubbi.Prelude.{
  ℕ, Bool, true, false, ◌&&◌, not, Option, none, some, ◌==◌, nat_eq, list_eq, if◌then◌else◌, any,
}
use gubbi.Pg.{Conn}
use gubbi.Crypto.Utf8.{Text}
use gubbi.Journal.Store.{
  Conversation, Tables, ok, err, unique_violation, Exec, statement, fetch, execute, owned, find_row,
  rewrite,
}
use gubbi.Journal.Conversations.{tenant_or, conversation_by_id}

abbrev pub has_platform : ℕ → Text → Text → Conversation → Bool
has_platform user platform platform_id c =
    c.user == user
    && elim c.platform [ none ↦ false | some (p, i) ↦ p == platform && i == platform_id ]

unfoldable pub exists_by_platform_id : Conn → ℕ → Text → Text → Exec Bool
exists_by_platform_id conn user platform platform_id = fetch conn λ t.
    any (λ c. owned conn.tenant c.user && has_platform user platform platform_id c) t.conversations

-- idx_conv_platform_dedup, on the row that is changed.
abbrev pub platform_clash : Conn → ℕ → Text → Text → Tables → Bool
platform_clash conn i platform platform_id t =
    any (conversation_by_id conn i) t.conversations
    && any (λ c. not (c.ident == i) && has_platform (tenant_or conn.tenant) platform platform_id c)
        t.conversations

unfoldable pub set_platform_metadata : Conn → ℕ → Text → Text → Exec (Unit {0})
set_platform_metadata conn i platform platform_id = statement conn λ t.
    if platform_clash conn i platform platform_id t
    then err unique_violation
    else ok (
      tt,
      record t {
        conversations =
            rewrite (conversation_by_id conn i)
              (λ c. record c { platform = some (platform, platform_id) }) t.conversations;
      },
    )

abbrev pub processed_time : Option Conversation → Option ℕ
processed_time none = none
processed_time (some c) = c.processed_at

unfoldable pub get_processed_at : Conn → ℕ → Exec (Option ℕ)
get_processed_at conn i =
    fetch conn (λ t. processed_time (find_row (conversation_by_id conn i) t.conversations))

abbrev pub is_unprocessed : Conversation → Bool
is_unprocessed c = elim c.processed_at [ none ↦ true | some _ ↦ false ]

unfoldable pub mark_processed : Conn → ℕ → Exec (Unit {0})
mark_processed conn i = execute conn λ t. record t {
  conversations =
      rewrite (λ c. conversation_by_id conn i c && is_unprocessed c)
        (λ c. record c { processed_at = some conn.now }) t.conversations;
}
