-- ===== src/Generator/Templates.antt =====
-- The templates of cmd/generatex.go, as runs of text with the package's name between them.
use kratos_demo.Prelude.{List, [], ◌∷◌, String, str_append, format}

pub data Piece : Type 0 where
  plain : String → Piece
  package_name : Piece

-- The template as Go has it.
unfoldable pub template : List Piece → String
template [] = ""
template (plain s ∷ pieces) = str_append s (template pieces)
template (package_name ∷ pieces) = str_append "{{.PackageName}}" (template pieces)

-- The text that is meant by it.
unfoldable pub rendered : String → List Piece → String
rendered owner [] = ""
rendered owner (plain s ∷ pieces) = str_append s (rendered owner pieces)
rendered owner (package_name ∷ pieces) = str_append owner (rendered owner pieces)

abbrev lines : List String → List Piece → List Piece
lines [] pieces = pieces
lines (line ∷ rest) pieces = plain (str_append line "\n") ∷ lines rest pieces

-- A line that imports one of the package's own packages.
abbrev own_import : String → List Piece → List Piece
own_import name pieces =
    plain "\t\"" ∷ package_name ∷ plain (format ("/" ∷ name ∷ "\"\n" ∷ [])) ∷ pieces

unfoldable pub main_template : List Piece
main_template = lines ("package main" ∷ "" ∷ "import (" ∷ []) (
    own_import "routes" (
      lines
        ("\t\"github.com/gin-gonic/gin\"" ∷ ")" ∷ "" ∷ "func main() {" ∷ "\t// 创建一个新的 Gin 引擎"
          ∷ "\trouter := gin.Default()" ∷ "" ∷ "\t// 加载路由" ∷ "\troutes.LoadRoutes(router)" ∷ ""
          ∷ "\t// 启动服务器" ∷ "\trouter.Run(\":8080\")" ∷ "}" ∷ [])
        []))

unfoldable pub user_controller_template : List Piece
user_controller_template = lines ("package controllers" ∷ "" ∷ "import (" ∷ "\t\"net/http\"" ∷ []) (
    own_import "models" (
      lines
        ("\t\"github.com/gin-gonic/gin\"" ∷ ")" ∷ "" ∷ "// GetUser 获取用户信息"
          ∷ "func GetUser(c *gin.Context) {" ∷ "\tid := c.Param(\"id\")"
          ∷ "\tuser := models.User{ID: id, Name: \"John Doe\", Email: \"john@example.com\"}"
          ∷ "\tc.JSON(http.StatusOK, gin.H{\"data\": user})" ∷ "}" ∷ "" ∷ "// CreateUser 创建新用户"
          ∷ "func CreateUser(c *gin.Context) {" ∷ "\tvar user models.User"
          ∷ "\tif err := c.ShouldBindJSON(&user); err != nil {"
          ∷ "\t\tc.JSON(http.StatusBadRequest, gin.H{\"error\": err.Error()})" ∷ "\t\treturn"
          ∷ "\t}" ∷ "\tc.JSON(http.StatusCreated, gin.H{\"data\": user})" ∷ "}" ∷ [])
        []))

unfoldable pub user_model_template : List Piece
user_model_template =
    lines
      ("package models" ∷ "" ∷ "type User struct {" ∷ "\tID    string `json:\"id\"`"
        ∷ "\tName  string `json:\"name\"`" ∷ "\tEmail string `json:\"email\"`" ∷ "}" ∷ [])
      []

unfoldable pub logger_template : List Piece
logger_template =
    lines
      ("package middlewares" ∷ "" ∷ "import (" ∷ "\t\"fmt\"" ∷ "\t\"time\"" ∷ ""
        ∷ "\t\"github.com/gin-gonic/gin\"" ∷ ")" ∷ "" ∷ "// Logger 记录请求的日志"
        ∷ "func Logger() gin.HandlerFunc {" ∷ "\treturn func(c *gin.Context) {"
        ∷ "\t\tstart := time.Now()" ∷ "\t\tpath := c.Request.URL.Path"
        ∷ "\t\traw := c.Request.URL.RawQuery" ∷ "" ∷ "\t\t// 处理请求" ∷ "\t\tc.Next()" ∷ ""
        ∷ "\t\tend := time.Since(start)" ∷ "\t\tstatus := c.Writer.Status()" ∷ "" ∷ "\t\t// 打印日志"
        ∷ "\t\tfmt.Printf(\"%s %d %s %s\\n\", end, status, path, raw)" ∷ "\t}" ∷ "}" ∷ [])
      []

unfoldable pub user_routes_template : List Piece
user_routes_template = lines ("package routes" ∷ "" ∷ "import (" ∷ []) (
    own_import "controllers" (
      own_import "middlewares" (
        lines
          ("\t\"github.com/gin-gonic/gin\"" ∷ ")" ∷ "" ∷ "// LoadRoutes 加载所有路由"
            ∷ "func LoadRoutes(r *gin.Engine) {" ∷ "\t// 注册中间件" ∷ "\tr.Use(middlewares.Logger())"
            ∷ "" ∷ "\t// 用户路由组" ∷ "\tuserGroup := r.Group(\"/users\")" ∷ "\t{"
            ∷ "\t\tuserGroup.GET(\"/:id\", controllers.GetUser)"
            ∷ "\t\tuserGroup.POST(\"\", controllers.CreateUser)" ∷ "\t}" ∷ "}" ∷ [])
          [])))
