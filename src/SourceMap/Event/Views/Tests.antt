-- ===== src/SourceMap/Event/Views/Tests.antt =====
-- An event of one exception, viewed twice.
use bug_han.Prelude.{List, true, some, none, [], ◌∷◌, codes}
use bug_han.Prelude.Int.{pos}
use bug_han.SourceMap.Resolve.{Libraries}
use bug_han.SourceMap.Event.{EventView, ReleaseFile}
use bug_han.SourceMap.Event.Views.{Codecs}
use bug_han.SourceMap.Event.Views.Cached.{fresh_view}

abbrev maps : Libraries
maps = record {
  unmarshal = λ t. none;
  base64 = λ t. none;
  unescape = λ t. none;
  resolve_url = λ b r. none;
}

abbrev payload : EventView
payload = record {
  release = codes "1.0";
  dist = [];
  images = [];
  exceptions =
      record {
        type = codes "Error";
        value = codes "boom";
        frames =
            record {
              lineno = pos 1;
              colno = pos 7;
              abs_path = codes "https://x.io/app.js";
              filename = [];
              function = codes "f";
              in_app = some true;
            }
            ∷ [];
      }
      ∷ [];
}

-- codecs that know one payload and no result
abbrev plain : Codecs
plain = record {
  decode_payload = λ b. some payload;
  decode_result = λ b. none;
  encode_result = λ r. codes "result";
  sha256 = λ b. b;
  maps = maps;
}

-- codecs that know its result as well
abbrev codecs : Codecs
codecs = record plain { decode_result = λ b. some (fresh_view plain (codes "p") [] payload) }

-- a file that is uploaded between the views
abbrev uploaded : List ReleaseFile
uploaded =
    record {
      project_id = codes "p";
      release = codes "1.0";
      artifact = record {
        name = codes "~/app.js.map";
        dist = [];
        sha256 = codes "ab";
        debug_id = [];
        sourcemap_url = [];
        body = [];
      };
    }
    ∷ []
