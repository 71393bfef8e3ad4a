-- ===== src/Examples/Scope.antt =====
-- Tests of the purpose gate: an explicit conversation, and what vetoes it.
use token_terminator.Common.{
  String, ◌≡◌, refl, true, false, ok, raise, type_error, strip, rstrip, lstrip_by, rstrip_by,
  is_space,
}
use token_terminator.Json.{
  Value, text, array, object, nil, item, end, field, Fields, get, has, truthy,
}
use token_terminator.Scope.{
  present, is_named, in_set, all_objects, speaks_one, speaks, histories, is_history, is_given,
  is_true, is_count, is_main_hook, mode_allowed, is_conversation, conversational_object,
  conversational_request,
}

abbrev lower : String → String
lower s = s

abbrev chat : Value → Value
chat role = object (
    field "messages"
      (array (item (object (field "role" role (field "content" (text "hi") end))) nil)) end)

abbrev purpose : Fields
purpose = field "request_purpose" (text "chat") end

chat_authorized :
    conversational_request lower 0 (ok false) (chat (text "user")) purpose
    ≡ ok (true, "explicit_conversation")
unfolding conversational_request conversational_object present is_named in_set all_objects
    speaks_one speaks histories is_history is_given is_true is_count is_main_hook mode_allowed
    is_conversation get has truthy strip rstrip lstrip_by rstrip_by is_space
chat_authorized = refl

bare_test :
    conversational_request lower 0 (ok false) (chat (text "user")) end
    ≡ ok (false, "unscoped_request")
unfolding conversational_request conversational_object present is_named in_set all_objects
    speaks_one speaks histories is_history is_given is_true is_count is_main_hook mode_allowed
    is_conversation get has truthy strip rstrip lstrip_by rstrip_by is_space
bare_test = refl

-- A role that is a list has no hash.
unhashable_test :
    conversational_request lower 0 (ok false) (chat (array nil)) purpose ≡ raise type_error
unfolding conversational_request conversational_object present is_named in_set all_objects
    speaks_one speaks histories is_history is_given is_true is_count is_main_hook mode_allowed
    is_conversation get has truthy strip rstrip lstrip_by rstrip_by is_space
unhashable_test = refl
