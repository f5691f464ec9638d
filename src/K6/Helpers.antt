-- ===== src/K6/Helpers.antt =====
-- The functions that every k6 script has (apps/api/internal/k6script/compiler.go, writeHelpers).
use wreckr.Prelude.{String, List, [], ◌∷◌, join}

helper_lines : List String
helper_lines =
    "function buildURL(path) {"
    ∷ "  if (path.startsWith('http://') || path.startsWith('https://')) {" ∷ "    return path;"
    ∷ "  }" ∷ "  return new URL(path, BASE_URL).toString();" ∷ "}" ∷ ""
    ∷ "function headers(extraHeaders) {"
    ∷ "  return Object.assign({}, TARGET_HEADERS, extraHeaders || {});" ∷ "}" ∷ ""
    ∷ "function bodyFor(request) {" ∷ "  if (request.json !== undefined) {"
    ∷ "    return JSON.stringify(request.json);" ∷ "  }" ∷ "  if (request.body !== undefined) {"
    ∷ "    return request.body;" ∷ "  }" ∷ "  return null;" ∷ "}" ∷ ""
    ∷ "function runRequest(request) {" ∷ "  const params = {"
    ∷ "    headers: headers(request.headers),"
    ∷ "    tags: { name: request.name, phase: request.phase || 'request' }" ∷ "  };"
    ∷ "  const body = bodyFor(request);"
    ∷ "  if (request.json !== undefined && params.headers['Content-Type'] === undefined) {"
    ∷ "    params.headers['Content-Type'] = 'application/json';" ∷ "  }"
    ∷ "  const response = http.request(request.method, buildURL(request.path), body, params);"
    ∷ "  const expected = request.expected_statuses;" ∷ "  const checks = {};"
    ∷ "  checks[request.name + ' status'] = (r) => expected.length > 0 ? expected.includes(r.status) : r.status < 500;"
    ∷ "  check(response, checks);" ∷ "  return response;" ∷ "}" ∷ "" ∷ "" ∷ []

-- The functions that every script has.
unfoldable pub write_helpers : String
unfolding helper_lines
write_helpers = join "\n" helper_lines
