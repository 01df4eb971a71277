-- ===== src/Apperror.antt =====
-- internal/apperror/apperror.go: the catalogue of public errors, and `Lookup`.
pub mod Laws
use match_camp.Base.{ℕ, String, Option, none, some, List, [], ◌∷◌, str_eq, if◌then◌else◌}

pub record Definition : Type 0 where
  pub code : String
  pub message : String
  pub status : ℕ

pub record ErrorBody : Type 0 where
  pub code : String
  pub message : String
  pub request_id : String

abbrev define : String → String → ℕ → String × Definition
define code message status = (code, record { code = code; message = message; status = status })

-- `var definitions`: the keys with their definitions, in the order of the source
abbrev pub definitions : List (String × Definition)
definitions =
    define "database_unavailable" "Banco de dados indisponivel." 503
    ∷ define "redis_unavailable" "Servico de tempo real indisponivel." 503
    ∷ define "invalid_json" "JSON invalido." 400
    ∷ define "invalid_register_payload" "Dados de cadastro invalidos." 400
    ∷ define "email_domain_not_allowed" "Dominio de email nao permitido." 403
    ∷ define "password_hash_failed" "Falha ao proteger a senha." 500
    ∷ define "email_already_registered" "Email ja cadastrado." 409
    ∷ define "register_failed" "Falha ao criar cadastro." 500
    ∷ define "session_create_failed" "Falha ao criar sessao." 500
    ∷ define "invalid_credentials" "Email ou senha invalidos." 401
    ∷ define "login_failed" "Falha ao realizar login." 500
    ∷ define "google_oauth_not_configured" "Login com Google nao configurado." 503
    ∷ define "oauth_state_failed" "Falha ao iniciar autenticacao externa." 500
    ∷ define "invalid_oauth_state" "Estado OAuth invalido." 400
    ∷ define "missing_oauth_code" "Codigo OAuth ausente." 400
    ∷ define "google_oauth_failed" "Falha ao autenticar com Google." 401
    ∷ define "google_email_not_verified" "Email Google nao verificado." 403
    ∷ define "google_user_save_failed" "Falha ao salvar usuario Google." 500
    ∷ define "profile_too_large" "Dados do perfil excedem o limite permitido." 400
    ∷ define "invalid_birth_date" "Data de nascimento invalida." 400
    ∷ define "profile_save_failed" "Falha ao salvar perfil." 500
    ∷ define "visibility_update_failed" "Falha ao atualizar visibilidade." 500
    ∷ define "profile_incomplete" "Complete o perfil antes de ativar visibilidade." 400
    ∷ define "profile_photos_list_failed" "Falha ao listar fotos do perfil." 500
    ∷ define "invalid_profile_photo_position" "A posicao da foto deve estar entre 0 e 3." 400
    ∷ define "invalid_multipart_photo" "Upload multipart invalido." 400
    ∷ define "missing_photo_file" "Arquivo da foto ausente." 400
    ∷ define "photo_read_failed" "Falha ao ler foto enviada." 400
    ∷ define "profile_photo_too_large" "Foto excede o tamanho maximo permitido." 413
    ∷ define "unsupported_profile_photo_type" "Formato de foto nao suportado." 400
    ∷ define "profile_photo_name_failed" "Falha ao gerar nome da foto." 500
    ∷ define "profile_photo_upload_failed" "Falha ao enviar foto para o storage." 500
    ∷ define "profile_photo_save_failed" "Falha ao salvar foto do perfil." 500
    ∷ define "profile_photo_not_found" "Foto do perfil nao encontrada." 404
    ∷ define "profile_photo_delete_failed" "Falha ao remover foto do perfil." 500
    ∷ define "discovery_failed" "Falha ao carregar perfis." 500
    ∷ define "discovery_photos_failed" "Falha ao carregar fotos dos perfis." 500
    ∷ define "invalid_swipe" "Acao de swipe invalida." 400
    ∷ define "swipe_already_exists" "Swipe ja registrado para esse usuario." 409
    ∷ define "swipe_failed" "Falha ao registrar swipe." 500
    ∷ define "matches_failed" "Falha ao listar matches." 500
    ∷ define "conversations_failed" "Falha ao listar conversas." 500
    ∷ define "not_conversation_member" "Usuario nao participa desta conversa." 403
    ∷ define "messages_failed" "Falha ao listar mensagens." 500
    ∷ define "conversation_id_mismatch" "Conversa da rota e do corpo nao conferem." 400
    ∷ define "invalid_chat_payload" "Mensagem de chat invalida." 400
    ∷ define "chat_payload_text_only" "Chat aceita somente texto, sem anexos ou campos extras." 400
    ∷ define "links_and_media_are_not_allowed" "Links e midias nao sao permitidos no chat." 400
    ∷ define "message_create_failed" "Falha ao criar mensagem." 500
    ∷ define "missing_session" "Sessao ausente." 401
    ∷ define "invalid_session" "Sessao invalida ou expirada." 401
    ∷ define "session_lookup_failed" "Falha ao validar sessao." 500
    ∷ define "invalid_uuid" "Identificador invalido." 400
    ∷ define "internal_error" "Erro interno." 500
    ∷ define "rate_limit_exceeded" "Muitas requisicoes. Tente novamente em instantes." 429
    ∷ define "profile_fetch_failed" "Falha ao carregar perfil." 500
    ∷ define "user_not_found" "Usuario nao encontrado." 404
    ∷ define "cannot_block_self" "Voce nao pode bloquear a si mesmo." 400
    ∷ define "block_failed" "Falha ao bloquear usuario." 500
    ∷ define "unblock_failed" "Falha ao desbloquear usuario." 500
    ∷ define "preferences_save_failed" "Falha ao salvar preferencias." 500
    ∷ define "invalid_preferences_payload" "Preferencias invalidas." 400
    ∷ []

-- A read of the map.
unfoldable pub get : String → List (String × Definition) → Option Definition
get key [] = none
get key ((k, d) ∷ ds) = if str_eq k key then some d else get key ds

abbrev or_zero : Option Definition → Definition
or_zero none = record { code = ""; message = ""; status = 0 }
or_zero (some d) = d

abbrev or_else : Option Definition → Definition → Definition
or_else none e = e
or_else (some d) e = d

unfoldable pub lookup : String → Definition
unfolding get
lookup code = or_else (get code definitions) (or_zero (get "internal_error" definitions))
