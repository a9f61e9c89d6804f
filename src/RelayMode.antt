-- ===== src/RelayMode.antt =====
-- server/internal/relay/constant/relay_mode.go: the kind of a request, by its path and by its name.
pub mod Query
use token_flux.Base.{
  ℕ, Bool, true, false, ◌&&◌, ◌||◌, Option, none, some, List, [], ◌∷◌, ◌≡◌, String, if◌then◌else◌,
}
use token_flux.Bytes.{
  Text, codes, text_eq, take, has_prefix, has_suffix, trim_prefix, index_of_str, contains,
}

pub data RelayMode : Type 0 where
  unknown chat_completions completions embeddings images_generations audio_speech : RelayMode
  audio_transcription rerank responses realtime claude_messages gemini_chat : RelayMode
  audio_translation video_generations video_fetch suno_submit suno_fetch moderations : RelayMode
  images_edits mj_submit mj_fetch mj_image responses_compact : RelayMode

abbrev ends_in : Text → String → Bool
ends_in s p = has_suffix s (codes p)

-- The query of a path is cut off.
unfoldable pub cut_at : Text → Option ℕ → Text
cut_at path none = path
cut_at path (some i) = take i path

unfoldable pub without_query : Text → Text
unfolding cut_at
without_query path = cut_at path (index_of_str path (codes "?"))

-- The switches on the paths of Midjourney and Suno, none when no case is taken.
unfoldable pub mj_mode : Text → Option RelayMode
mj_mode path =
    if has_prefix path (codes "/mj/submit/")
    then some mj_submit
    else if has_prefix path (codes "/mj/task/") && ends_in path "/fetch"
    then some mj_fetch
    else if has_prefix path (codes "/mj/image/")
    then some mj_image
    else none

unfoldable pub suno_mode : Text → Option RelayMode
suno_mode path =
    if has_prefix path (codes "/suno/submit/")
    then some suno_submit
    else if text_eq path (codes "/suno/fetch") || has_prefix path (codes "/suno/fetch/")
    then some suno_fetch
    else none

-- The last switch.
unfoldable pub mode_by_suffix : Text → RelayMode
mode_by_suffix path =
    if ends_in path "/chat/completions"
    then chat_completions
    else if ends_in path "/completions"
    then completions
    else if ends_in path "/embeddings"
    then embeddings
    else if ends_in path "/images/edits"
    then images_edits
    else if ends_in path "/images/generations"
    then images_generations
    else if ends_in path "/audio/speech"
    then audio_speech
    else if ends_in path "/audio/transcriptions"
    then audio_transcription
    else if ends_in path "/audio/translations"
    then audio_translation
    else if ends_in path "/rerank"
    then rerank
    else if has_prefix path (codes "/responses/compact")
    then responses_compact
    else if ends_in path "/responses"
    then responses
    else if ends_in path "/realtime"
    then realtime
    else if ends_in path "/messages"
    then claude_messages
    else if ends_in path ":generateContent" || ends_in path ":streamGenerateContent"
    then gemini_chat
    else if ends_in path "/video/generations"
    then video_generations
    else if contains path (codes "/video/generations/")
    then video_fetch
    else if ends_in path "/moderations"
    then moderations
    else unknown

unfoldable pub trimmed : Text → Text
trimmed path = trim_prefix (trim_prefix path (codes "/v1beta")) (codes "/v1")

abbrev pub or_else : Option RelayMode → RelayMode → RelayMode
or_else none m = m
or_else (some m) n = m

-- `Path2RelayMode` after the version is trimmed, and whole.
unfoldable pub mode_of_trimmed : Text → RelayMode
mode_of_trimmed path =
    let general = mode_by_suffix (without_query path) in
    if has_prefix path (codes "/mj/")
    then or_else (mj_mode path) general
    else if has_prefix path (codes "/suno/")
    then or_else (suno_mode path) general
    else general

unfoldable pub path_to_relay_mode : Text → RelayMode
unfolding trimmed
path_to_relay_mode path = mode_of_trimmed (trimmed path)

-- `String`
unfoldable pub mode_name : RelayMode → String
mode_name unknown = "unknown"
mode_name chat_completions = "chat_completions"
mode_name completions = "completions"
mode_name embeddings = "embeddings"
mode_name images_generations = "images_generations"
mode_name audio_speech = "audio_speech"
mode_name audio_transcription = "audio_transcriptions"
mode_name audio_translation = "audio_translations"
mode_name rerank = "rerank"
mode_name responses = "responses"
mode_name responses_compact = "responses_compact"
mode_name realtime = "realtime"
mode_name claude_messages = "claude_messages"
mode_name gemini_chat = "gemini_generate_content"
mode_name video_generations = "video_generations"
mode_name video_fetch = "video_fetch"
mode_name suno_submit = "suno_submit"
mode_name suno_fetch = "suno_fetch"
mode_name moderations = "moderations"
mode_name images_edits = "images_edits"
mode_name mj_submit = "mj_submit"
mode_name mj_fetch = "mj_fetch"
mode_name mj_image = "mj_image"
