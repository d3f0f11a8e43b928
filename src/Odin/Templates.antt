-- ===== src/Odin/Templates.antt =====
-- The texts of the pages of modules/odin/src/odin.cpp.
use rite.Prelude.{ℕ, List, ◌++◌}
use rite.Text.{codes}

-- What `body_` puts around a page.
abbrev pub page_head : List ℕ
page_head =
    codes "\n"
    ++ (codes "<!DOCTYPE html>\n"
        ++ (codes "<html>\n"
            ++ (codes "<head>\n"
                ++ (codes "<link rel=\"stylesheet\" href=\"./css\" />\n"
                    ++ (codes
                          "<script src=\"https://unpkg.com/htmx.org@2.0.4\" integrity=\"sha384-HGfztofotfshcF7+"
                        ++ (codes
                              "8n44JQL2oJmowVChPTg48S+jvZoztPfvwD79OC/LTtG6dMp+\" crossorigin=\"anonymous\"></scrip"
                            ++ (codes "t>\n"
                                ++ (codes "</head>\n"
                                    ++ (codes "<body class=\"content-padding\">\n")))))))))

abbrev pub page_end : List ℕ
page_end = codes "\n" ++ (codes "</body>\n" ++ (codes "</html>\n"))

-- The overview.
abbrev pub index_text : List ℕ
index_text =
    codes "\n"
    ++ (codes "<h1>Admin Panel</h1>\n"
        ++ (codes "<div class=\"flex justify-between\">\n"
            ++ (codes "<h2>Overview</h2>\n"
                ++ (codes
                      "<button class=\"flex center\" hx-trigger=\"click\" hx-get=\"/__server/!component/car"
                    ++ (codes
                          "d?metric=RPS&metric=P90&metric=P75&metric=P50&metric=total_served&metric=2xx&metric="
                        ++ (codes "4xx&metric=5xx\" hx-target=\"#bento\" hx-swap=\"innerHTML\">\n"
                            ++ (codes
                                  "<svg xmlns=\"http://www.w3.org/2000/svg\" width=\"24\" height=\"24\" viewBox=\"0 0 2"
                                ++ (codes
                                      "4 24\" fill=\"none\" stroke=\"currentColor\" stroke-width=\"2\" stroke-linecap=\"rou"
                                    ++ (codes
                                          "nd\" stroke-linejoin=\"round\" class=\"lucide lucide-refresh-ccw\"><path d=\"M21 12a"
                                        ++ (codes
                                              "9 9 0 0 0-9-9 9.75 9.75 0 0 0-6.74 2.74L3 8\"/><path d=\"M3 3v5h5\"/><path d=\"M3 12"
                                            ++ (codes
                                                  "a9 9 0 0 0 9 9 9.75 9.75 0 0 0 6.74-2.74L21 16\"/><path d=\"M16 16h5v5\"/></svg>\n"
                                                ++ (codes "</button>\n"
                                                    ++ (codes "</div>\n"
                                                        ++ (codes
                                                            "<div class=\"grid gap-lg mb-lg\" id=\"bento\" style=\"--columns: repeat(4, 1fr) \"\n"
                                                            ++ (codes
                                                            "hx-trigger=\"revealed\" hx-get=\"/__server/!component/card?metric=RPS&metric=P90&met"
                                                            ++ (codes
                                                            "ric=P75&metric=P50&metric=total_served&metric=2xx&metric=4xx&metric=5xx\" hx-swap=\""
                                                            ++ (codes "innerHTML\">\n"
                                                            ++ (codes
                                                            "    <div class=\"h-full w-full flex center\"><span class=\"big\">Loading...</span></"
                                                            ++ (codes "div>\n"
                                                            ++ (codes "</div>\n"
                                                            ++ (codes "<h2>Requests</h2>\n"
                                                            ++ (codes
                                                            "<div class=\"flex column gap-sm\"\n"
                                                            ++ (codes "hx-trigger=\"revealed\"\n"
                                                            ++ (codes
                                                            "hx-get=\"/__server/!component/request-list?num=25\"\n"
                                                            ++ (codes "hx-swap=\"innerHTML\"\n"
                                                            ++ (codes "></div>\n"
                                                            ++ (codes
                                                            "\n")))))))))))))))))))))))))))

-- The templates of a row of the list and of a card.
abbrev pub row_template : List ℕ
row_template =
    codes "\n"
    ++ (codes "<div class=\"flex row gap justify-between -request\">\n"
        ++ (codes "<span class=\"-method\" x-http-method=\"%method\">%method</span>\n"
            ++ (codes "<div class=\"flex column items-center\">\n"
                ++ (codes "<span class=\"-path\">%path</span>\n"
                    ++ (codes "<span class=\"muted -ip\">%ip</span>\n"
                        ++ (codes "</div>\n"
                            ++ (codes "<span>%size KiB</span>\n"
                                ++ (codes "<span>%request_time</span>\n"
                                    ++ (codes "<span>%processing_time us</span>\n"
                                        ++ (codes "</div>\n"))))))))))

abbrev pub card_template : List ℕ
card_template =
    codes "\n"
    ++ (codes "<div class=\"card\">\n"
        ++ (codes "<p class=\"tooltip inline\">%name\n"
            ++ (codes "<span role=\"tooltip-text\">%explanation</span></p>\n"
                ++ (codes "<p class=\"big\">%value</p>\n" ++ (codes "</div>\n")))))
