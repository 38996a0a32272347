-- ===== src/IssueTitles.antt =====
-- src/kefu/tools/issue_titles.py: the customer's name stands once before an issue's title.
use message_router.Prelude.{
  ◌-◌, ◌++◌, if◌then◌else◌, Text, codes, strip, lstrip, rstrip, is_empty, starts_with, ends_with,
  length, take, drop, ◌||◌,
}

-- " ｜ "
abbrev pub customer_title_separator : Text
customer_title_separator = codes " ｜ "

-- The title without the prefix of the customer's former name.
unfoldable pub without_previous : Text → Text → Text
without_previous title previous_customer =
    let previous_prefix = previous_customer ++ customer_title_separator in
    if is_empty previous_customer
    then title
    else if starts_with title previous_prefix
    then lstrip (drop (length previous_prefix) title)
    else title

-- The title without the suffix that older drafts have.
unfoldable pub without_suffix : Text → Text → Text
without_suffix title customer =
    let suffix = customer_title_separator ++ customer in
    if ends_with title suffix then rstrip (take (length title - length suffix) title) else title

unfoldable pub with_prefix : Text → Text → Text
with_prefix title customer =
    let prefix = customer ++ customer_title_separator in
    if starts_with title prefix then title else prefix ++ title

unfoldable pub format_customer_issue_title : Text → Text → Text → Text
format_customer_issue_title issue_title customer_name previous_customer_name =
    let title = without_previous (strip issue_title) (strip previous_customer_name) in
    let customer = strip customer_name in
    if is_empty title || is_empty customer
    then title
    else take 512 (with_prefix (without_suffix title customer) customer)
